-- ===== src/Cache/Capability/Evict.antt =====
-- What a panel gets from backend/server/capability_cache.py after an eviction.
use bricktrace.Prelude.{
  ℕ, String, Bool, true, false, List, [], ◌∷◌, Option, none, some, ◌≡◌, refl, arith,
}
use bricktrace.Cache.Capability.{
  Stored, CapabilityCache, computed, is_for, select_one, delete_where, ensure_ready, evict, hit_of,
  fetch, recompute, serve_or_compute,
}

select-delete :
    (p q : Stored → Bool)
    → ((r : Stored) → q r ≡ true → p r ≡ true)
    → (rows : List Stored) → select_one q (delete_where p rows) ≡ none
unfolding select_one delete_where
select-delete p q inside [] = refl
select-delete p q inside (r ∷ rows) = ground (arith, inside r, select-delete p q inside rows)

module _ {ℓ} {Payload : Type ℓ} (dumps : Payload → String) (loads : String → Option Payload)
    (bytes : String → ℕ) where
  computed_of_miss :
      (up : Bool) (now : ℕ) (table tab actor : String) (value : Payload) (refresh : Bool)
      (c : CapabilityCache)
      → select_one (is_for table tab) c.rows ≡ none
      → (serve_or_compute dumps loads bytes up now table tab (some value) actor refresh c).1
        ≡ computed value
  unfolding serve_or_compute fetch recompute ensure_ready hit_of
  computed_of_miss up now table tab actor value true c miss = refl
  computed_of_miss true now table tab actor value false c miss = rw (serve_or_compute, miss)
  computed_of_miss false now table tab actor value false c miss = refl

  -- After the entry of a table and tab was evicted, the panel gets a payload that is computed
  -- afresh, whether or not it asks for a refresh and whether or not the warehouse still answers.
  pub serve_or_compute-evict :
      (up : Bool) (now : ℕ) (table tab actor : String) (value : Payload) (refresh : Bool)
      (c : CapabilityCache)
      → (serve_or_compute dumps loads bytes up now table tab
          (some value)
          actor
          refresh
          (evict true table tab c).0).1
        ≡ computed value
  unfolding evict ensure_ready
  serve_or_compute-evict up now table tab actor value refresh c =
      computed_of_miss up now table tab actor value refresh _
        (select-delete (is_for table tab) (is_for table tab) (λ r h. h) c.rows)
