-- ===== src/Lineage/Trace/Cone.antt =====
-- However the two walks interleave, what they collect lies in the cone of the seed.
use mathlib.Core.List.{Memᴰ}
use mathlib.Core.List.Memᴰ
use mathlib.Core.Logic.{⊎_elim}
use mathlib.Core.Path.{subst}
use bricktrace.Prelude.{
  ℕ, ◌≡◌, ◌&&◌, not, Bool, true, String, List, [], ◌∷◌, ◌++◌, Option, none, some, refl, sym, elem,
  elem-append, eq_iff, arith, Bool-cases, inl, inr,
}
use bricktrace.Validators.Url.{truthy}
use bricktrace.Validators.Escape.{text_of}
use bricktrace.Lineage.Trace.{
  LineageRow, Direction, up, down, match_of, next_of, has_row, collect, Walker, World, walker,
  set_walker, begin, first_walker, ask, meet, turn, leave, Answers, no_rows, row, Step, asks, meets,
  turns, leaves, Reach, here, next,
}

module _ (in_table : LineageRow → Bool) (seed : String) where
  -- The tables that rows lead to in one direction: the ancestors or the descendants, with the seed.
  pub data InCone (d : Direction) : String → Type 0 where
    at_seed : InCone d seed
    along :
        (r : LineageRow) (a b : String)
        → in_table r ≡ true
        → match_of d r ≡ some a
        → next_of d r ≡ some b
        → InCone d a
        → InCone d b

  -- A row of the table that leads on from the cone of a direction.
  abbrev pub IsOfCone : Direction → LineageRow → Type 0
  IsOfCone d r = (in_table r ≡ true) × (t : String) × (match_of d r ≡ some t) × InCone d t

  record IsInside (d : Direction) (u : Walker) : Type 0 where
    front : (t : String) → elem t u.frontier ≡ true → InCone d t
    ahead : (t : String) → elem t u.nxt ≡ true → InCone d t
    looked : (r : LineageRow) → Memᴰ r u.to_look_at → IsOfCone d r

  record IsSound (w : World) : Type 0 where
    inside : (d : Direction) → IsInside d (walker d w)
    collected : (r : LineageRow) → Memᴰ r w.lineage_rows → (d : Direction) × IsOfCone d r

  answered :
      (d : Direction) (frontier : List String) (rows : List LineageRow)
      → Answers in_table d frontier rows
      → ((t : String) → elem t frontier ≡ true → InCone d t)
      → (r : LineageRow) → Memᴰ r rows
      → IsOfCone d r
  answered d frontier [] no_rows h r m = absurd (Memᴰ.not-nil m)
  answered d frontier (_ ∷ _) (row s t rows i e f a) h r m =
      ⊎_elim (λ q. subst (IsOfCone d) (sym q) (i, t, e, h t f)) (answered d frontier rows a h r)
        (Memᴰ.cases_cons m)

  mem-collect :
      (r : LineageRow) (rows old : List LineageRow)
      → Memᴰ r (collect rows old)
      → (P : Type 0) → (Memᴰ r rows → P)
      → (Memᴰ r old → P)
      → P
  unfolding collect
  mem-collect r [] old m P new before = before m
  mem-collect r (s ∷ rows) old m P new before = elim (Bool-cases (has_row s old)) [
    | inl e ↦ mem-collect r rows old (rw e at m) P (λ n. new (Memᴰ.tail n)) before
    | inr e ↦
        mem-collect r rows (old ++ s ∷ []) (rw e at m) P (λ n. new (Memᴰ.tail n))
          (λ n.
            ⊎_elim before (λ k. new (Memᴰ.head (Memᴰ.eq_of_singleton k))) (Memᴰ.append_cases old n))
  ]

  set-IsInside :
      (d : Direction) (u : Walker) (w : World)
      → ((e : Direction) → IsInside e (walker e w))
      → IsInside d u
      → (e : Direction) → IsInside e (walker e (set_walker d u w))
  unfolding set_walker walker
  set-IsInside up u w h i up = i
  set-IsInside up u w h i down = h down
  set-IsInside down u w h i up = h up
  set-IsInside down u w h i down = i

  with-IsInside :
      (w : World) (seen : List String) (rows : List LineageRow) (t : Bool)
      → ((e : Direction) → IsInside e (walker e w))
      → (e : Direction)
      → IsInside e (walker e (record w { seen_all = seen; lineage_rows = rows; truncated = t }))
  unfolding walker
  with-IsInside w seen rows t h up = h up
  with-IsInside w seen rows t h down = h down

  rows_of-set_walker :
      (d : Direction) (u : Walker) (w : World) → (set_walker d u w).lineage_rows ≡ w.lineage_rows
  unfolding set_walker
  rows_of-set_walker up u w = refl
  rows_of-set_walker down u w = refl

  set-IsSound :
      (d : Direction) (u : Walker) (w : World) (seen : List String) (rows : List LineageRow)
      (t : Bool)
      → IsSound w
      → IsInside d u
      → ((r : LineageRow) → Memᴰ r rows → (e : Direction) × IsOfCone e r)
      → IsSound (set_walker d u (record w { seen_all = seen; lineage_rows = rows; truncated = t }))
  set-IsSound d u w seen rows t s i c = record {
    inside = set-IsInside d u _ (with-IsInside w seen rows t s.inside) i;
    collected = λ r m. c r (subst (λ rs. Memᴰ r rs) (rows_of-set_walker d u _) m);
  }

  none_ahead : (d : Direction) (t : String) → elem t [] ≡ true → InCone d t
  unfolding elem
  none_ahead d t h = cc h

  module _ (node_cap hop_max_rows : ℕ) where
    ask-IsSound :
        (d : Direction) (rows : List LineageRow) (w : World)
        → IsSound w
        → Answers in_table d (walker d w).frontier rows
        → IsSound (ask node_cap hop_max_rows d rows w)
    unfolding ask
    ask-IsSound d rows w s a =
        let i = s.inside d in
        let new = answered d (walker d w).frontier rows a i.front in
        set-IsSound d _ w w.seen_all (collect rows w.lineage_rows) _ s
          (record { front = i.front; ahead = none_ahead d; looked = new })
          (λ r m.
            mem-collect r rows w.lineage_rows m ((e : Direction) × IsOfCone e r) (λ n. (d, new r n))
              (s.collected r))

  first_looked :
      (d : Direction) (r : LineageRow) (rest : List LineageRow) (w : World)
      → IsSound w
      → (walker d w).to_look_at ≡ r ∷ rest
      → (s : LineageRow) → Memᴰ s (r ∷ rest)
      → IsOfCone d s
  first_looked d r rest w s e k m = (s.inside d).looked k (subst (λ rs. Memᴰ k rs) (sym e) m)

  text_of-truthy : (fn : Option String) → truthy fn ≡ true → fn ≡ some (text_of fn)
  unfolding truthy text_of
  text_of-truthy none h = cc h
  text_of-truthy (some t) h = refl

  -- One table more in the next frontier.
  one_ahead :
      (d : Direction) (nxt : List String) (b : String)
      → ((t : String) → elem t nxt ≡ true → InCone d t)
      → InCone d b
      → (t : String) → elem t (nxt ++ b ∷ []) ≡ true
      → InCone d t
  unfolding elem
  one_ahead d nxt b h c t m = elim (Bool-cases (elem t nxt)) [
    | inl e ↦ h t e
    | inr e ↦
        let same : t ≡ b = ground (arith, elem-append t nxt (b ∷ []), eq_iff t b) in
        subst (InCone d) (sym same) c
  ]

  meet-IsSound :
      (d : Direction) (r : LineageRow) (rest : List LineageRow) (w : World)
      → IsSound w
      → (walker d w).to_look_at ≡ r ∷ rest
      → IsSound (meet d (next_of d r) rest w)
  unfolding meet
  meet-IsSound d r rest w s e =
      let i = s.inside d in
      let (known, a, matched, cone) = first_looked d r rest w s e r (Memᴰ.head refl) in
      let later : (k : LineageRow) → Memᴰ k rest → IsOfCone d k =
        λ k m. first_looked d r rest w s e k (Memᴰ.tail m) in
      elim (Bool-cases (truthy (next_of d r) && not (elem (text_of (next_of d r)) w.seen_all))) [
        | inl t ↦
            let b = text_of (next_of d r) in
            let met : InCone d b =
              along r a b known matched (text_of-truthy (next_of d r) (ground arith)) cone in
            rw t (
              set-IsSound d _ w (b ∷ w.seen_all) w.lineage_rows w.truncated s
                (record {
                  front = i.front;
                  ahead = one_ahead d (walker d w).nxt b i.ahead met;
                  looked = later;
                })
                s.collected)
        | inr t ↦ rw t (
            set-IsSound d _ w w.seen_all w.lineage_rows w.truncated s
              (record { front = i.front; ahead = i.ahead; looked = later }) s.collected)
      ]

  turn-IsSound : (d : Direction) (w : World) → IsSound w → IsSound (turn d w)
  unfolding turn
  turn-IsSound d w s =
      let i = s.inside d in
      set-IsSound d _ w w.seen_all w.lineage_rows w.truncated s
        (record { front = i.ahead; ahead = none_ahead d; looked = i.looked }) s.collected

  leave-IsSound :
      (node_cap hop_max_rows : ℕ) (d : Direction) (w : World)
      → IsSound w
      → IsSound (leave node_cap hop_max_rows d w)
  unfolding leave
  leave-IsSound node_cap hop_max_rows d w s = record {
    inside = with-IsInside w w.seen_all w.lineage_rows _ s.inside;
    collected = s.collected;
  }

  module _ (node_cap hop_max_rows : ℕ) where
    Step-IsSound : {w v : World} → IsSound w → Step node_cap hop_max_rows in_table w v → IsSound v
    Step-IsSound s (asks d rows h m a) = ask-IsSound node_cap hop_max_rows d rows _ s a
    Step-IsSound s (meets d r rest h) = meet-IsSound d r rest _ s h
    Step-IsSound s (turns d h k) = turn-IsSound d _ s
    Step-IsSound s (leaves d h m) = leave-IsSound node_cap hop_max_rows d _ s

    first-IsInside : (d : Direction) → IsInside d (first_walker seed)
    unfolding first_walker elem
    first-IsInside d = record {
      front = λ t h. subst (InCone d) (sym ((eq_iff t seed).0 (ground arith))) at_seed;
      ahead = none_ahead d;
      looked = λ r m. absurd (Memᴰ.not-nil m);
    }

    begin-IsInside : (d : Direction) → IsInside d (walker d (begin seed))
    unfolding walker begin
    begin-IsInside up = first-IsInside up
    begin-IsInside down = first-IsInside down

    Reach-IsSound : {w : World} → Reach node_cap hop_max_rows in_table (begin seed) w → IsSound w
    unfolding begin
    Reach-IsSound here = record {
      inside = begin-IsInside;
      collected = λ r m. absurd (Memᴰ.not-nil m);
    }
    Reach-IsSound (next h s) = Step-IsSound (Reach-IsSound h) s

    -- In every state that the two walks can reach, however their steps interleave, each row that was
    -- collected is a row of the table that leads on from an ancestor of the seed (or from the seed)
    -- upward, or from a descendant (or from the seed) downward.
    pub collected_in_cone :
        {w : World}
        → Reach node_cap hop_max_rows in_table (begin seed) w
        → (r : LineageRow) → Memᴰ r w.lineage_rows
        → (d : Direction) × IsOfCone d r
    collected_in_cone h = (Reach-IsSound h).collected
