-- ===== src/Lineage/Service/Traces.antt =====
-- Which traces backend/lineage_service.py keeps.
use bricktrace.Prelude.{
  String, Bool, true, false, ◌==◌, not, eq_refl, Option, none, some, ◌≡◌, inl, inr, Bool-cases,
}
use bricktrace.Prelude.Text.{◌⊕◌}
use bricktrace.Prelude.Dict.{Dict, lookup, insert, lookup-insert}
use bricktrace.Lineage.Service.{cached, fetched, answer, get_lineage_trace}

module _ {ℓ} {Graph : Type ℓ} (truncated lineage_ok : Graph → Bool) where
  -- Every graph of the cache is complete.
  pub record AllComplete (cache : Dict Graph) : Type ℓ where
    pub complete_at : (k : String) (g : Graph) → lookup k cache ≡ some g → truncated g ≡ false

  insert-AllComplete :
      (key : String) (g : Graph) (cache : Dict Graph)
      → truncated g ≡ false
      → AllComplete cache
      → AllComplete (insert key g cache)
  insert-AllComplete key g cache complete h = record { complete_at = at }
    where
      some_injective : {a b : Graph} → some a ≡ some b → b ≡ a
      some_injective e = cc

      at :
          (k : String) (g' : Graph) → lookup k (insert key g cache) ≡ some g' → truncated g' ≡ false
      at k g' e = elim (Bool-cases (k == key)) [
        | inl t ↦ rw (some_injective (rw (lookup-insert key k g cache, t) at e)) complete
        | inr t ↦ h.complete_at k g' (rw (lookup-insert key k g cache, t) at e)
      ]

  answer-AllComplete :
      (key : String) (found fetch : Option Graph) (cache : Dict Graph)
      → AllComplete cache
      → AllComplete (answer (λ g. not (truncated g)) key found fetch cache).0
  unfolding answer fetched
  answer-AllComplete key (some g) fetch cache h = h
  answer-AllComplete key none none cache h = h
  answer-AllComplete key none (some g) cache h = elim (Bool-cases (truncated g)) [
    | inl t ↦ rw t h
    | inr t ↦ rw t (insert-AllComplete key g cache t h)
  ]

  -- If the cache holds only complete graphs, it still does after a call for a trace, whatever the
  -- call fetched and whether or not it skipped the cache.
  pub get_lineage_trace-AllComplete :
      (seed : String) (skip_cache : Bool) (fetch : Option Graph) (cache : Dict Graph)
      → AllComplete cache
      → AllComplete (get_lineage_trace truncated lineage_ok seed skip_cache fetch cache).0
  unfolding get_lineage_trace cached ◌⊕◌
  get_lineage_trace-AllComplete seed skip_cache fetch cache h =
      answer-AllComplete ("trace:v2:" ⊕ seed) (cached skip_cache ("trace:v2:" ⊕ seed) cache) fetch
        cache h

  kept_fetch :
      (key : String) (g : Graph) (found fetch : Option Graph) (cache : Dict Graph)
      → truncated g ≡ false
      → (answer (λ g. not (truncated g)) key found fetch cache).1
        ≡ some (record { graph = g; is_cached = false })
      → lookup key (answer (λ g. not (truncated g)) key found fetch cache).0 ≡ some g
  unfolding answer fetched
  kept_fetch key g (some h) fetch cache complete e = cc e
  kept_fetch key g none none cache complete e = cc e
  kept_fetch key g none (some h) cache complete e =
      let same : h ≡ g = cc in rw (same, complete, lookup-insert key key g cache, eq_refl key)

  -- Where a call, made to skip the cache or not, answered with a complete trace that it fetched, the
  -- next call for the seed that does not skip the cache answers with that trace from the cache,
  -- whatever it would fetch itself.
  pub get_lineage_trace-get_lineage_trace :
      (seed : String) (skip_cache : Bool) (g : Graph) (fetch later : Option Graph)
      (cache : Dict Graph)
      → truncated g ≡ false
      → (get_lineage_trace truncated lineage_ok seed skip_cache fetch cache).1
        ≡ some (record { graph = g; is_cached = false })
      → (get_lineage_trace truncated lineage_ok seed false later
          (get_lineage_trace truncated lineage_ok seed skip_cache fetch cache).0).1
        ≡ some (record { graph = g; is_cached = true })
  unfolding get_lineage_trace cached answer ◌⊕◌
  get_lineage_trace-get_lineage_trace seed skip_cache g fetch later cache complete e =
      let key = "trace:v2:" ⊕ seed in
      rw (kept_fetch key g (cached skip_cache key cache) fetch cache complete e)
