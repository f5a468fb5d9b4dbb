-- ===== src/Prelude/Sort.antt =====
-- list.sort: a stable sort by a test for `stands before or is equal`.
use mathlib.Core.List.{List, [], ◌∷◌, Memᴰ}
use mathlib.Core.List.Memᴰ
use mathlib.Core.Logic.{⊎_elim, ◌⊎◌, inl, inr}
use mathlib.Core.Bool.{Bool, true, false, ◌&&◌}
use mathlib.Core.Path.{◌≡◌, refl, ap, ◌∙◌}
use Prim.Native.Nat.{ℕ, zero, suc}
use native.Mathlib.Omega.{arith}
use bricktrace.Prelude.Tests.{if◌then◌else◌, Bool-cases}
use bricktrace.Prelude.Lists.{length, take}

module _ {ℓ} {A : Type ℓ} (le : A → A → Bool) where
  unfoldable pub insert_by : A → List A → List A
  insert_by x [] = x ∷ []
  insert_by x (y ∷ ys) = let rest = insert_by x ys in if le x y then x ∷ y ∷ ys else y ∷ rest

  unfoldable pub sort_by : List A → List A
  unfolding insert_by
  sort_by [] = []
  sort_by (x ∷ xs) = insert_by x (sort_by xs)

  -- The element stands before all of the list.
  unfoldable pub before_all : A → List A → Bool
  before_all x [] = true
  before_all x (y ∷ ys) = le x y && before_all x ys

  unfoldable pub sorted_by : List A → Bool
  unfolding before_all
  sorted_by [] = true
  sorted_by (x ∷ xs) = before_all x xs && sorted_by xs

  length-insert_by : (x : A) (xs : List A) → length (insert_by x xs) ≡ suc (length xs)
  unfolding insert_by
  length-insert_by x [] = refl
  length-insert_by x (y ∷ ys) = ground (arith, length-insert_by x ys)

  pub length-sort_by : (xs : List A) → length (sort_by xs) ≡ length xs
  unfolding sort_by
  length-sort_by [] = refl
  length-sort_by (x ∷ xs) = length-insert_by x (sort_by xs) ∙ ap suc (length-sort_by xs)

  mem-insert_by :
      (z x : A) (xs : List A)
      → (Memᴰ z (insert_by x xs) → (z ≡ x) ⊎ Memᴰ z xs)
        × ((z ≡ x) ⊎ Memᴰ z xs → Memᴰ z (insert_by x xs))
  unfolding insert_by
  mem-insert_by z x [] =
      (λ m. inl (Memᴰ.eq_of_singleton m), ⊎_elim Memᴰ.head (λ m. absurd (Memᴰ.not-nil m)))
  mem-insert_by z x (y ∷ ys) = elim (Bool-cases (le x y)) [
    | inl e ↦ rw e (Memᴰ.cases_cons, ⊎_elim Memᴰ.head Memᴰ.tail)
    | inr e ↦
        let (out, into) = mem-insert_by z x ys in
        rw e (
          λ m.
              ⊎_elim (λ h. inr (Memᴰ.head h)) (λ t. ⊎_elim inl (λ n. inr (Memᴰ.tail n)) (out t))
                (Memᴰ.cases_cons m),
          ⊎_elim (λ h. Memᴰ.tail (into (inl h)))
              (λ m. ⊎_elim Memᴰ.head (λ t. Memᴰ.tail (into (inr t))) (Memᴰ.cases_cons m)),
        )
  ]

  pub mem-sort_by :
      (z : A) (xs : List A) → (Memᴰ z (sort_by xs) → Memᴰ z xs) × (Memᴰ z xs → Memᴰ z (sort_by xs))
  unfolding sort_by
  mem-sort_by z [] = (λ m. m, λ m. m)
  mem-sort_by z (x ∷ xs) =
      let (out, into) = mem-sort_by z xs in
      let (out', into') = mem-insert_by z x (sort_by xs) in
      (
        λ m. ⊎_elim Memᴰ.head (λ t. Memᴰ.tail (out t)) (out' m),
        λ m. into' (⊎_elim inl (λ t. inr (into t)) (Memᴰ.cases_cons m)),
      )

  module _ (total : (x y : A) → le x y ≡ false → le y x ≡ true)
      (trans : (x y z : A) → le x y ≡ true → le y z ≡ true → le x z ≡ true) where
    before_all_trans :
        (x y : A) (xs : List A) → le x y ≡ true → before_all y xs ≡ true → before_all x xs ≡ true
    unfolding before_all
    before_all_trans x y [] h b = refl
    before_all_trans x y (z ∷ zs) h b = ground (arith, trans x y z, before_all_trans x y zs)

    before_all-insert_by :
        (y x : A) (xs : List A)
        → le y x ≡ true
        → before_all y xs ≡ true
        → before_all y (insert_by x xs) ≡ true
    unfolding before_all insert_by
    before_all-insert_by y x [] h b = ground arith
    before_all-insert_by y x (z ∷ zs) h b = ground (arith, before_all-insert_by y x zs)

    sorted_by-insert_by :
        (x : A) (xs : List A) → sorted_by xs ≡ true → sorted_by (insert_by x xs) ≡ true
    unfolding sorted_by insert_by before_all
    sorted_by-insert_by x [] s = refl
    sorted_by-insert_by x (y ∷ ys) s = ground (
      arith,
      total x y,
      before_all_trans x y ys,
      before_all-insert_by y x ys,
      sorted_by-insert_by x ys,
    )

    pub sorted_by-sort_by : (xs : List A) → sorted_by (sort_by xs) ≡ true
    unfolding sorted_by sort_by
    sorted_by-sort_by [] = refl
    sorted_by-sort_by (x ∷ xs) = sorted_by-insert_by x (sort_by xs) (sorted_by-sort_by xs)

  before_all-take :
      (n : ℕ) (x : A) (xs : List A) → before_all x xs ≡ true → before_all x (take n xs) ≡ true
  unfolding before_all
  before_all-take zero x xs b = refl
  before_all-take (suc n) x [] b = refl
  before_all-take (suc n) x (y ∷ ys) b = ground (arith, before_all-take n x ys)

  pub sorted_by-take : (n : ℕ) (xs : List A) → sorted_by xs ≡ true → sorted_by (take n xs) ≡ true
  unfolding sorted_by before_all
  sorted_by-take zero xs s = refl
  sorted_by-take (suc n) [] s = refl
  sorted_by-take (suc n) (x ∷ xs) s = ground (arith, before_all-take n x xs, sorted_by-take n xs)
