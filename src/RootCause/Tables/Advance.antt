-- ===== src/RootCause/Tables/Advance.antt =====
-- One round of the walk over tables keeps the nearest tables.
use bricktrace.Prelude.{
  ℕ, suc, ◌≤◌, ◌<◌, ◌==◌, ◌&&◌, not, true, false, String, List, [], ◌∷◌, Option, none, some,
  if◌then◌else◌, ◌≡◌, ◌≢◌, ◌⊎◌, refl, sym, ◌∙◌, arith, eq_iff, elem, Bool-cases, inl, inr, leb,
  leb→le, leb_false→lt,
}
use bricktrace.Prelude.Dict.{Dict, lookup, known, known_of_lookup, lookup_of_known}
use mathlib.Core.Path.{subst}
use bricktrace.RootCause.Tables.Rows.{names}

-- The table is read over so many hops, each from a table to one of its direct sources.
pub data IsAt (reads : String → List String) (start : String) : ℕ → String → Type 0 where
  at_start : IsAt reads start 0 start
  read_by :
      (n : ℕ) (t s : String)
      → IsAt reads start n t
      → elem s (reads t) ≡ true
      → IsAt reads start (suc n) s

-- What the statement promises: it names exactly the direct sources of the frontier.
abbrev pub IsAnswered :
    (String → List String) → (List String → Option (List (Option String))) → Type 0
IsAnswered reads query =
    (frontier : List String)
    → (rows : List (Option String)) × (query frontier ≡ some rows)
      × ((t s : String)
          → elem t frontier ≡ true
          → elem s (reads t) ≡ true
          → elem s (names rows) ≡ true)
      × ((s : String)
          → elem s (names rows) ≡ true
          → (t : String) × (elem t frontier ≡ true) × (elem s (reads t) ≡ true))

module _ (reads : String → List String) (start : String) where
  -- After so many rounds: the tables visited are those upstream within these hops, at the least number
  -- of hops; the frontier holds the tables that are first met at the last of them.
  pub record IsNearest (hop : ℕ) (v : Dict ℕ) (frontier : List String) : Type 0 where
    pub met :
        (s : String) (h : ℕ)
        → lookup s v ≡ some h
        → IsAt reads start h s × (1 ≤ h) × (h ≤ hop) × (s ≢ start)
    pub all_met :
        (s : String) (n : ℕ) → IsAt reads start n s → n ≤ hop → s ≢ start → known v s ≡ true
    pub least : (s : String) (h n : ℕ) → lookup s v ≡ some h → IsAt reads start n s → h ≤ n
    pub front : (s : String) → elem s frontier ≡ true → IsAt reads start hop s
    pub all_front :
        (s : String)
        → IsAt reads start hop s
        → (elem s frontier ≡ true) ⊎ ((n : ℕ) × (n < hop) × IsAt reads start n s)

  at_zero : (s : String) → IsAt reads start 0 s → s ≡ start
  at_zero s at_start = refl

  pub begin-IsNearest : IsNearest 0 [] (start ∷ [])
  unfolding lookup known elem
  begin-IsNearest = record {
    met = λ s h e. cc e;
    all_met = λ s n a le away.
        let zeroth : n ≡ 0 = omega (arith, le) in
        absurd (away (at_zero s (subst (λ k. IsAt reads start k s) zeroth a)));
    least = λ s h n e a. cc e;
    front = λ s h. subst (IsAt reads start 0) (sym ((eq_iff s start).0 (ground arith))) at_start;
    all_front = λ s a. inl (ground (arith, at_zero s a, eq_iff s start));
  }

  -- One round, by what it does to the tables visited and the frontier.
  pub record IsRound (hop : ℕ) (v : Dict ℕ) (frontier : List String) (w : Dict ℕ)
      (nxt : List String) : Type 0 where
    pub sources : List String
    pub read :
        (t s : String) → elem t frontier ≡ true → elem s (reads t) ≡ true → elem s sources ≡ true
    pub read_only :
        (s : String)
        → elem s sources ≡ true
        → (t : String) × (elem t frontier ≡ true) × (elem s (reads t) ≡ true)
    pub visits :
        (s : String)
        → lookup s w ≡ (
            if known v s
            then lookup s v
            else (if elem s sources && not (s == start) then some (suc hop) else none))
    pub fronts : (s : String) → elem s nxt ≡ (elem s sources && not (s == start) && not (known v s))

  module _ (hop : ℕ) (v : Dict ℕ) (frontier : List String) (w : Dict ℕ) (nxt : List String)
      (i : IsNearest hop v frontier) (r : IsRound hop v frontier w nxt) where
    kept : (s : String) (h : ℕ) → lookup s v ≡ some h → lookup s w ≡ some h
    kept s h e = r.visits s ∙ rw (known_of_lookup s h v e) e

    -- A table one hop further: it is a source of the frontier, or was met before.
    one_further :
        (s : String)
        → IsAt reads start (suc hop) s
        → (elem s r.sources ≡ true) ⊎ ((n : ℕ) × (n ≤ hop) × IsAt reads start n s)
    one_further _ (read_by _ t s a e) = elim (i.all_front t a) [
      | inl f ↦ inl (r.read t s f e)
      | inr (k, lt, b) ↦ inr (suc k, lt, read_by k t s b e)
    ]

    new_one :
        (s : String) (h : ℕ)
        → known v s ≡ false
        → lookup s w ≡ some h
        → (h ≡ suc hop) × (elem s r.sources ≡ true) × ((s == start) ≡ false)
    new_one s h k e =
        let shown = sym (r.visits s) ∙ e in
        elim (Bool-cases (elem s r.sources && not (s == start))) [
          | inl c ↦
              let same : some (suc hop) ≡ some h = rw (k, c) at shown in
              (cc same, ground arith, ground arith)
          | inr c ↦ let no : none ≡ some h = rw (k, c) at shown in cc no
        ]

    source-IsAt : (s : String) → elem s r.sources ≡ true → IsAt reads start (suc hop) s
    source-IsAt s h = let (t, f, e) = r.read_only s h in read_by hop t s (i.front t f) e

    next-met :
        (s : String) (h : ℕ)
        → lookup s w ≡ some h
        → IsAt reads start h s × (1 ≤ h) × (h ≤ suc hop) × (s ≢ start)
    next-met s h e = elim (Bool-cases (known v s)) [
      | inl k ↦
          let (g, f) = lookup_of_known s v k in
          let same : g ≡ h = cc (kept s g f, e) in
          let (a, one, le, away) = i.met s g f in
          (subst (λ n. IsAt reads start n s) same a, omega (arith, same), omega (arith, same), away)
      | inr k ↦
          let (same, src, away) = new_one s h k e in
          (
            subst (λ n. IsAt reads start n s) (sym same) (source-IsAt s src),
            omega (arith, same),
            omega (arith, same),
            λ q. cc (away, (eq_iff s start).1 q),
          )
    ]

    not_before :
        (s : String) (n : ℕ) → IsAt reads start n s → n ≤ hop → s ≢ start → known v s ≡ false → ⊥
    not_before s n a le away k = cc (i.all_met s n a le away, k)

    source_or_met :
        (s : String) (n : ℕ)
        → IsAt reads start n s
        → n ≤ suc hop
        → s ≢ start
        → known v s ≡ false
        → elem s r.sources ≡ true
    source_or_met s n a le away k = elim (Bool-cases (leb n hop)) [
      | inl near ↦ absurd (not_before s n a (leb→le n hop near) away k)
      | inr far ↦
          let last : n ≡ suc hop = omega (arith, le, leb_false→lt n hop far) in
          elim (one_further s (subst (λ m. IsAt reads start m s) last a)) [
            | inl src ↦ src
            | inr (m, near, b) ↦ absurd (not_before s m b near away k)
          ]
    ]

    not_start : (s : String) → s ≢ start → (s == start) ≡ false
    not_start s away = elim (Bool-cases (s == start)) [
      | inl e ↦ absurd (away ((eq_iff s start).0 e))
      | inr e ↦ e
    ]

    next-all_met :
        (s : String) (n : ℕ) → IsAt reads start n s → n ≤ suc hop → s ≢ start → known w s ≡ true
    next-all_met s n a le away = elim (Bool-cases (known v s)) [
      | inl k ↦ let (g, f) = lookup_of_known s v k in known_of_lookup s g w (kept s g f)
      | inr k ↦
          let new : lookup s w ≡ some (suc hop) =
            r.visits s ∙ rw (k, source_or_met s n a le away k, not_start s away) refl in
          known_of_lookup s (suc hop) w new
    ]

    next-least : (s : String) (h n : ℕ) → lookup s w ≡ some h → IsAt reads start n s → h ≤ n
    next-least s h n e a = elim (Bool-cases (known v s)) [
      | inl k ↦
          let (g, f) = lookup_of_known s v k in
          let same : g ≡ h = cc (kept s g f, e) in omega (arith, same, i.least s g n f a)
      | inr k ↦
          let (same, src, away) = new_one s h k e in
          elim (Bool-cases (leb n hop)) [
            | inl near ↦
                absurd
                  (not_before s n a (leb→le n hop near) (λ q. cc (away, (eq_iff s start).1 q)) k)
            | inr far ↦ omega (arith, same, leb_false→lt n hop far)
          ]
    ]

    next-all_front :
        (s : String)
        → IsAt reads start (suc hop) s
        → (elem s nxt ≡ true) ⊎ ((n : ℕ) × (n < suc hop) × IsAt reads start n s)
    next-all_front s a = elim (Bool-cases (s == start)) [
      | inl e ↦
          inr (0, omega arith, subst (IsAt reads start 0) (sym ((eq_iff s start).0 e)) at_start)
      | inr e ↦ elim (one_further s a) [
        | inr (n, le, b) ↦ inr (n, omega (arith, le), b)
        | inl src ↦ elim (Bool-cases (known v s)) [
          | inr k ↦ inl (r.fronts s ∙ rw (src, e, k) refl)
          | inl k ↦
              let (g, f) = lookup_of_known s v k in
              let (b, one, le, away) = i.met s g f in inr (g, omega (arith, le), b)
        ]
      ]
    ]

    pub next-IsNearest : IsNearest (suc hop) w nxt
    next-IsNearest = record {
      met = next-met;
      all_met = next-all_met;
      least = next-least;
      front = λ s h. source-IsAt s (ground (arith, r.fronts s));
      all_front = next-all_front;
    }
