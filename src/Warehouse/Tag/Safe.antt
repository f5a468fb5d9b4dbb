-- ===== src/Warehouse/Tag/Safe.antt =====
-- When the tag keeps the statement outside the comment, and when it does not.
use bricktrace.Prelude.{
  ℕ, zero, suc, ◌≡◌, ◌≢◌, refl, ap, String, Char, code, Bool, true, false, ◌&&◌, ◌||◌, ◌==◌, eq_iff,
  Option, none, some, arith, eqb, if◌then◌else◌, Bool-cases, inl, inr,
}
use bricktrace.Prelude.Text.{take, ◌⊕◌, starts, has_pair}
use bricktrace.Warehouse.Tag.{
  Context, tag_max_len, replace_pair, replace_char, keep, lstrip, rstrip_cons, rstrip, scrub_tag,
  hash_actor, set_request_context, join, parts, tag_statement,
}

-- What a SQL reader does behind `/*`: it looks for the first `*/` and goes on behind that.
unfoldable pub after_comment : String → Option String
after_comment String.[] = none
after_comment (String.◌∷◌ c String.[]) = none
after_comment (String.◌∷◌ c (String.◌∷◌ d s)) =
    let rest = after_comment (String.◌∷◌ d s) in
    if eqb (code c) b'*' && eqb (code d) b'/' then some s else rest

-- Every character of the text passes the test.
unfoldable pub all_chars : (Char → Bool) → String → Bool
all_chars p String.[] = true
all_chars p (String.◌∷◌ c s) = p c && all_chars p s

module _ (a b : ℕ) (a' : a ≢ 32) (b' : b ≢ 32) where
  starts-replace_pair :
      (k x y : ℕ) (s : String) → k ≢ 32 → starts k (replace_pair x y s) ≡ true → starts k s ≡ true
  unfolding replace_pair
  starts-replace_pair k x y String.[] h e = e
  starts-replace_pair k x y (String.◌∷◌ c String.[]) h e = e
  starts-replace_pair k x y (String.◌∷◌ c (String.◌∷◌ d s)) h e = ground arith

  has_pair-replace_pair :
      (x y : ℕ) (s : String) → has_pair a b s ≡ false → has_pair a b (replace_pair x y s) ≡ false
  unfolding has_pair replace_pair
  has_pair-replace_pair x y String.[] h = h
  has_pair-replace_pair x y (String.◌∷◌ c String.[]) h = h
  has_pair-replace_pair x y (String.◌∷◌ c (String.◌∷◌ d s)) h = ground (
    arith,
    has_pair-replace_pair x y s,
    has_pair-replace_pair x y (String.◌∷◌ d s),
    starts-replace_pair b x y (String.◌∷◌ d s) b',
  )

  has_pair-replace_pair_self : (s : String) → has_pair a b (replace_pair a b s) ≡ false
  unfolding has_pair replace_pair
  has_pair-replace_pair_self String.[] = refl
  has_pair-replace_pair_self (String.◌∷◌ c String.[]) = ground arith
  has_pair-replace_pair_self (String.◌∷◌ c (String.◌∷◌ d s)) = ground (
    arith,
    has_pair-replace_pair_self s,
    has_pair-replace_pair_self (String.◌∷◌ d s),
    starts-replace_pair b a b (String.◌∷◌ d s) b',
  )

  starts-replace_char :
      (k x : ℕ) (s : String) → k ≢ 32 → starts k (replace_char x s) ≡ true → starts k s ≡ true
  unfolding replace_char
  starts-replace_char k x String.[] h e = e
  starts-replace_char k x (String.◌∷◌ c s) h e = ground arith

  has_pair-replace_char :
      (x : ℕ) (s : String) → has_pair a b s ≡ false → has_pair a b (replace_char x s) ≡ false
  unfolding has_pair replace_char
  has_pair-replace_char x String.[] h = h
  has_pair-replace_char x (String.◌∷◌ c s) h =
      ground (arith, has_pair-replace_char x s, starts-replace_char b x s b')

  has_pair-lstrip :
      (p : Char → Bool) (s : String) → has_pair a b s ≡ false → has_pair a b (lstrip p s) ≡ false
  unfolding has_pair lstrip
  has_pair-lstrip p String.[] h = h
  has_pair-lstrip p (String.◌∷◌ c s) h = ground (arith, has_pair-lstrip p s)

  starts-rstrip_cons :
      (q : Bool) (c : Char) (s : String)
      → starts b (rstrip_cons q c s) ≡ true
      → eqb (code c) b ≡ true
  unfolding rstrip_cons
  starts-rstrip_cons true c String.[] e = cc
  starts-rstrip_cons true c (String.◌∷◌ d s) e = e
  starts-rstrip_cons false c s e = e

  starts-rstrip : (p : Char → Bool) (s : String) → starts b (rstrip p s) ≡ true → starts b s ≡ true
  unfolding rstrip
  starts-rstrip p String.[] e = e
  starts-rstrip p (String.◌∷◌ c s) e = starts-rstrip_cons (p c) c (rstrip p s) e

  has_pair-rstrip_cons :
      (q : Bool) (c : Char) (s : String)
      → has_pair a b (String.◌∷◌ c s) ≡ false
      → has_pair a b (rstrip_cons q c s) ≡ false
  unfolding rstrip_cons has_pair
  has_pair-rstrip_cons true c String.[] e = refl
  has_pair-rstrip_cons true c (String.◌∷◌ d s) e = e
  has_pair-rstrip_cons false c s e = e

  has_pair-rstrip :
      (p : Char → Bool) (s : String) → has_pair a b s ≡ false → has_pair a b (rstrip p s) ≡ false
  unfolding has_pair rstrip
  has_pair-rstrip p String.[] h = h
  has_pair-rstrip p (String.◌∷◌ c s) h =
      has_pair-rstrip_cons (p c) c (rstrip p s)
        (unfold has_pair in ground (arith, has_pair-rstrip p s, starts-rstrip p s))

-- The texts whose characters the final filter keeps, once the line breaks and tabs are spaces.
unfoldable pub plain : (Char → Bool) → Char → Bool
plain p c = p c || eqb (code c) 10 || eqb (code c) 13 || eqb (code c) 9

module _ (p : Char → Bool) (space : p " " ≡ true) where
  all_chars-take :
      (q : Char → Bool) (n : ℕ) (s : String) → all_chars q s ≡ true → all_chars q (take n s) ≡ true
  unfolding all_chars
  all_chars-take q zero s h = refl
  all_chars-take q (suc n) String.[] h = refl
  all_chars-take q (suc n) (String.◌∷◌ c s) h = ground (arith, all_chars-take q n s)

  all_chars-replace_pair :
      (q : Char → Bool) (a b : ℕ) (s : String)
      → q " " ≡ true
      → all_chars q s ≡ true
      → all_chars q (replace_pair a b s) ≡ true
  unfolding all_chars replace_pair
  all_chars-replace_pair q a b String.[] e h = refl
  all_chars-replace_pair q a b (String.◌∷◌ c String.[]) e h = h
  all_chars-replace_pair q a b (String.◌∷◌ c (String.◌∷◌ d s)) e h =
      ground (arith, all_chars-replace_pair q a b s, all_chars-replace_pair q a b (String.◌∷◌ d s))

  keep_all : (s : String) → all_chars p s ≡ true → keep p s ≡ s
  unfolding keep all_chars
  keep_all String.[] h = refl
  keep_all (String.◌∷◌ c s) h = ground (arith, keep_all s)

  unbroken : String → String
  unbroken s = replace_char 9 (replace_char 13 (replace_char 10 s))

  all_chars-unbroken : (s : String) → all_chars (plain p) s ≡ true → all_chars p (unbroken s) ≡ true
  unfolding unbroken replace_char all_chars plain
  all_chars-unbroken String.[] h = refl
  all_chars-unbroken (String.◌∷◌ c s) h = ground (arith, all_chars-unbroken s)

  scrub_tag-has_pair :
      (is_space : Char → Bool) (value : String)
      → all_chars (plain p) value ≡ true
      → has_pair b'*' b'/' (scrub_tag p is_space value) ≡ false
  unfolding scrub_tag unbroken plain
  scrub_tag-has_pair is_space value h =
      let s = take tag_max_len value in
      let t = replace_pair b'/' b'*' (replace_pair b'*' b'/' s) in
      let q = all_chars-replace_pair (plain p) in
      let fits =
        q b'/' b'*' (replace_pair b'*' b'/' s) (ground arith)
          (q b'*' b'/' s (ground arith) (all_chars-take (plain p) tag_max_len value h)) in
      let clean =
        has_pair-replace_pair b'*' b'/' (omega arith) (omega arith) b'/' b'*' _
          (has_pair-replace_pair_self b'*' b'/' (omega arith) (omega arith) s) in
      let line = has_pair-replace_char b'*' b'/' (omega arith) (omega arith) in
      rw (keep_all _ (all_chars-unbroken t fits)) (
        has_pair-rstrip b'*' b'/' (omega arith) (omega arith) is_space _ (
          has_pair-lstrip b'*' b'/' (omega arith) (omega arith) is_space _
            (line 9 _ (line 13 _ (line 10 _ clean)))))

-- What runs of a statement that may begin with a comment.
pub executed : String → Option String
unfolding after_comment
executed (String.◌∷◌ c (String.◌∷◌ d s)) =
    let rest = after_comment s in
    if eqb (code c) b'/' && eqb (code d) b'*' then rest else some (String.◌∷◌ c (String.◌∷◌ d s))
executed s = some s

after_comment-append :
    (s sql : String)
    → has_pair b'*' b'/' s ≡ false
    → after_comment (s ⊕ " */\n" ⊕ sql) ≡ some ("\n" ⊕ sql)
unfolding after_comment has_pair ◌⊕◌
after_comment-append String.[] sql h = refl
after_comment-append (String.◌∷◌ c String.[]) sql h =
    ground (arith, after_comment-append String.[] sql refl)
after_comment-append (String.◌∷◌ c (String.◌∷◌ d s)) sql h =
    ground (arith, after_comment-append (String.◌∷◌ d s) sql)

has_pair-append :
    (x y : String)
    → has_pair b'*' b'/' x ≡ false
    → has_pair b'*' b'/' y ≡ false
    → has_pair b'*' b'/' (x ⊕ " " ⊕ y) ≡ false
unfolding has_pair ◌⊕◌
has_pair-append String.[] y h k = k
has_pair-append (String.◌∷◌ c String.[]) y h k = ground arith
has_pair-append (String.◌∷◌ c (String.◌∷◌ d s)) y h k =
    ground (arith, has_pair-append (String.◌∷◌ d s) y)

has_pair-parts :
    (c : Context)
    → has_pair b'*' b'/' c.endpoint ≡ false
    → has_pair b'*' b'/' c.actor ≡ false
    → has_pair b'*' b'/' (join (parts c)) ≡ false
unfolding join parts has_pair ◌⊕◌
has_pair-parts c e a = elim (Bool-cases (c.endpoint == "")) [
  | inl p ↦ elim (Bool-cases (c.actor == "")) [ inl q ↦ rw (p, q) | inr q ↦ rw (p, q) a ]
  | inr p ↦ elim (Bool-cases (c.actor == "")) [
    | inl q ↦ rw (p, q) e
    | inr q ↦ rw (p, q) (has_pair-append ("endpoint=" ⊕ c.endpoint) ("actor=" ⊕ c.actor) e a)
  ]
]

executed-tag :
    (c : Context) (sql : String)
    → c.actor ≢ ""
    → has_pair b'*' b'/' c.endpoint ≡ false
    → has_pair b'*' b'/' c.actor ≡ false
    → executed (tag_statement c sql) ≡ some ("\n" ⊕ sql)
unfolding executed tag_statement
executed-tag c sql known e a =
    let body = String.◌∷◌ " " (join (parts c)) in
    let clean : has_pair b'*' b'/' body ≡ false = unfold has_pair in has_pair-parts c e a in
    elim (Bool-cases (c.endpoint == "" && c.actor == "")) [
      | inl q ↦ absurd (known ((eq_iff c.actor "").0 (ground arith)))
      | inr q ↦ rw q (after_comment-append body sql clean)
    ]

-- The text of one character between a star and a slash.
abbrev pub starred : Char → String
starred c = String.◌∷◌ "*" (String.◌∷◌ c (String.◌∷◌ "/" String.[]))

pair-starred :
    (a b : ℕ) (c : Char)
    → eqb (code c) b ≡ false
    → (eqb (code c) a ≡ false)
    → replace_pair a b (starred c) ≡ starred c
unfolding replace_pair
pair-starred a b c h k = ground arith

char-starred :
    (a : ℕ) (c : Char)
    → eqb (code c) a ≡ false
    → eqb b'*' a ≡ false
    → eqb b'/' a ≡ false
    → replace_char a (starred c) ≡ starred c
unfolding replace_char
char-starred a c h k l = ground arith

module _ (p is_space : Char → Bool) (digest : String → String) where
  -- If every character of the endpoint is printable, a line break or a tab, and the digest of a
  -- caller is a text with no `*/` that is not empty, then what runs of a tagged statement is the
  -- statement itself, on a line of its own.
  pub tagged_statement_runs :
      (endpoint actor sql : String)
      → p " " ≡ true
      → all_chars (plain p) endpoint ≡ true
      → digest actor ≢ ""
      → has_pair b'*' b'/' (digest actor) ≡ false
      → executed (tag_statement (set_request_context p is_space digest endpoint actor) sql)
        ≡ some ("\n" ⊕ sql)
  unfolding set_request_context
  tagged_statement_runs endpoint actor sql space h known clean =
      executed-tag (set_request_context p is_space digest endpoint actor) sql
        (ground (arith, hash_known actor known)) (scrub_tag-has_pair p space is_space endpoint h)
        (ground (arith, hash_clean actor clean))
    where
      hash_known : (a : String) → digest a ≢ "" → hash_actor p is_space digest a ≢ ""
      hash_known a k = elim (Bool-cases (a == "")) [
        | inl q ↦ rw q (λ e. cc (ap (starts b'a') e))
        | inr q ↦ rw q k
      ]

      hash_clean :
          (a : String)
          → has_pair b'*' b'/' (digest a) ≡ false
          → has_pair b'*' b'/' (hash_actor p is_space digest a) ≡ false
      hash_clean a k = elim (Bool-cases (a == "")) [
        | inl q ↦ rw q (unfold has_pair in refl)
        | inr q ↦ rw q k
      ]

  -- None of the characters that `_scrub_tag` replaces.
  abbrev pub IsPassedOver : Char → Type 0
  IsPassedOver c =
      (eqb (code c) b'*' ≡ false)
      × (eqb (code c) b'/' ≡ false)
      × (eqb (code c) 10 ≡ false)
      × (eqb (code c) 13 ≡ false)
      × (eqb (code c) 9 ≡ false)

  scrub-starred :
      (c : Char)
      → p c ≡ false
      → IsPassedOver c
      → (p "*" ≡ true) × (p "/" ≡ true)
      → (is_space "*" ≡ false) × (is_space "/" ≡ false)
      → scrub_tag p is_space (starred c) ≡ "*/"
  unfolding scrub_tag keep rstrip lstrip
  scrub-starred c np (star, slash, nl, cr, tab) (ps, pl) (ss, sl) =
      rw
        (
          pair-starred b'*' b'/' c slash star,
          pair-starred b'/' b'*' c star slash,
          char-starred 10 c nl refl refl,
          char-starred 13 c cr refl refl,
          char-starred 9 c tab refl refl,
          kept,
        )
        stripped
    where
      kept : keep p (starred c) ≡ "*/"
      kept = rw (ps, np, pl)

      stripped : rstrip is_space (lstrip is_space "*/") ≡ "*/"
      stripped = rw (ss, ss, sl)

  -- A character that is not printable is dropped after the pairs are replaced, so between `*` and
  -- `/` it lets them meet: for a caller with a digest, the comment of an endpoint with such a
  -- place ends early, and what follows the endpoint runs as SQL.
  pub dropped_character_ends_comment :
      (c : Char) (actor sql : String)
      → p c ≡ false
      → IsPassedOver c
      → (p "*" ≡ true) × (p "/" ≡ true)
      → (is_space "*" ≡ false) × (is_space "/" ≡ false)
      → hash_actor p is_space digest actor ≢ ""
      → executed (tag_statement (set_request_context p is_space digest (starred c) actor) sql)
        ≡ some (" actor=" ⊕ hash_actor p is_space digest actor ⊕ " */\n" ⊕ sql)
  unfolding executed tag_statement set_request_context join parts ◌⊕◌ after_comment
  dropped_character_ends_comment c actor sql np over printable solid known =
      rw (scrub-starred c np over printable solid)
        (elim (Bool-cases (hash_actor p is_space digest actor == "")) [
          | inl q ↦ absurd (known ((eq_iff _ "").0 q))
          | inr q ↦ rw q
        ])
