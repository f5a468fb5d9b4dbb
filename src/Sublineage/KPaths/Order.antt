-- ===== src/Sublineage/KPaths/Order.antt =====
-- Sorting the paths by length keeps them all, and puts the short ones first.
use mathlib.Core.List.{Memᴰ}
use mathlib.Core.List.Memᴰ
use mathlib.Core.Logic.{⊎_elim}
use bricktrace.Prelude.{
  ℕ, ◌∙◌, suc, ◌≤◌, ◌≡◌, refl, ap, ◌⊎◌, inl, inr, List, [], ◌∷◌, length, leb, leb→le, leb_false→lt,
  arith, Bool-cases,
}
use bricktrace.Sublineage.KPaths.{HopPath, insert_path, sort_paths}

-- No path of the list is shorter than this.
abbrev pub AtLeast : ℕ → List HopPath → Type 0
AtLeast n [] = Unit
AtLeast n (p ∷ ps) = (n ≤ length p) × AtLeast n ps

-- Each path is at most as long as all that follow it.
abbrev pub IsSorted : List HopPath → Type 0
IsSorted [] = Unit
IsSorted (p ∷ ps) = AtLeast (length p) ps × IsSorted ps

length-insert_path : (p : HopPath) (ps : List HopPath) → length (insert_path p ps) ≡ suc (length ps)
unfolding insert_path
length-insert_path p [] = refl
length-insert_path p (q ∷ qs) = ground (arith, length-insert_path p qs)

pub length-sort_paths : (ps : List HopPath) → length (sort_paths ps) ≡ length ps
unfolding sort_paths
length-sort_paths [] = refl
length-sort_paths (p ∷ ps) = length-insert_path p (sort_paths ps) ∙ ap suc (length-sort_paths ps)

mem-insert_path :
    (x p : HopPath) (ps : List HopPath)
    → (Memᴰ x (insert_path p ps) → (x ≡ p) ⊎ Memᴰ x ps)
      × ((x ≡ p) ⊎ Memᴰ x ps → Memᴰ x (insert_path p ps))
unfolding insert_path
mem-insert_path x p [] =
    (λ m. inl (Memᴰ.eq_of_singleton m), ⊎_elim Memᴰ.head (λ m. absurd (Memᴰ.not-nil m)))
mem-insert_path x p (q ∷ qs) = elim (Bool-cases (leb (length p) (length q))) [
  | inl e ↦ rw e (Memᴰ.cases_cons, ⊎_elim Memᴰ.head Memᴰ.tail)
  | inr e ↦
      let (out, into) = mem-insert_path x p qs in
      rw e (
        λ m.
            ⊎_elim (λ h. inr (Memᴰ.head h)) (λ t. ⊎_elim inl (λ n. inr (Memᴰ.tail n)) (out t))
              (Memᴰ.cases_cons m),
        ⊎_elim (λ h. Memᴰ.tail (into (inl h)))
            (λ m. ⊎_elim Memᴰ.head (λ t. Memᴰ.tail (into (inr t))) (Memᴰ.cases_cons m)),
      )
]

pub mem-sort_paths :
    (x : HopPath) (ps : List HopPath)
    → (Memᴰ x (sort_paths ps) → Memᴰ x ps) × (Memᴰ x ps → Memᴰ x (sort_paths ps))
unfolding sort_paths
mem-sort_paths x [] = (λ m. m, λ m. m)
mem-sort_paths x (p ∷ ps) =
    let (out, into) = mem-sort_paths x ps in
    let (out', into') = mem-insert_path x p (sort_paths ps) in
    (
      λ m. ⊎_elim Memᴰ.head (λ t. Memᴰ.tail (out t)) (out' m),
      λ m. into' (⊎_elim inl (λ t. inr (into t)) (Memᴰ.cases_cons m)),
    )

AtLeast-mono : (n m : ℕ) (ps : List HopPath) → n ≤ m → AtLeast m ps → AtLeast n ps
AtLeast-mono n m [] h a = tt
AtLeast-mono n m (p ∷ ps) h a = (omega arith, AtLeast-mono n m ps h a.1)

AtLeast-insert_path :
    (n : ℕ) (p : HopPath) (ps : List HopPath)
    → n ≤ length p
    → AtLeast n ps
    → AtLeast n (insert_path p ps)
unfolding insert_path
AtLeast-insert_path n p [] h a = (h, tt)
AtLeast-insert_path n p (q ∷ qs) h a = elim (Bool-cases (leb (length p) (length q))) [
  | inl e ↦ rw e (h, a)
  | inr e ↦ rw e (a.0, AtLeast-insert_path n p qs h a.1)
]

insert_path-IsSorted : (p : HopPath) (ps : List HopPath) → IsSorted ps → IsSorted (insert_path p ps)
unfolding insert_path
insert_path-IsSorted p [] s = (tt, tt)
insert_path-IsSorted p (q ∷ qs) s = elim (Bool-cases (leb (length p) (length q))) [
  | inl e ↦ let le = leb→le _ _ e in rw e ((le, AtLeast-mono (length p) (length q) qs le s.0), s)
  | inr e ↦
      let lt = leb_false→lt (length p) (length q) e in
      rw e (AtLeast-insert_path (length q) p qs (omega arith) s.0, insert_path-IsSorted p qs s.1)
]

pub sort_paths-IsSorted : (ps : List HopPath) → IsSorted (sort_paths ps)
unfolding sort_paths
sort_paths-IsSorted [] = tt
sort_paths-IsSorted (p ∷ ps) = insert_path-IsSorted p (sort_paths ps) (sort_paths-IsSorted ps)
