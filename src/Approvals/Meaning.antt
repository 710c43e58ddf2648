-- ===== src/Approvals/Meaning.antt =====
-- What a pattern of an approval rule means (`globMatch` of server/approvals.ts).
use velarix_bot.Prelude.{
  ℕ, String, Bool, true, false, not, ◌||◌, List, [], ◌∷◌, ◌++◌, none, some, arith, ◌≡◌, ◌↔◌, ◌⊎◌,
  ◌∙◌, refl, sym, subst, inl, inr, map, append-nil, Bool-cases, ◌==◌, ==_iff, ==_refl, ◌===◌,
  ===_iff, if◌then◌else◌, codes, truthy,
}
use velarix_bot.Approvals.Glob.{
  is_special, escape_specials, expand_stars, any_char, literal, many, Token, single, repeated,
  after, read, Piece, group, compile, fits, once, many_times, accepts, glob_match,
}

-- The texts that a pattern stands for: a star for any text, any other character for itself.
pub data Means : List ℕ → List ℕ → Type 0 where
  done : Means [] []
  same :
      {c : ℕ} {pattern text : List ℕ}
      → (c == b'*') ≡ false
      → Means pattern text
      → Means (c ∷ pattern) (c ∷ text)
  skip :
      {pattern text : List ℕ} (before : List ℕ)
      → Means pattern text
      → Means (b'*' ∷ pattern) (before ++ text)

piece_of : ℕ → Piece
piece_of c =
    if c == b'*'
    then record { atom = any_char; times = some many }
    else record { atom = literal c; times = none }

tokens_of : List ℕ → List Token
tokens_of [] = []
tokens_of (c ∷ pattern) =
    if c == b'*'
    then single any_char ∷ repeated many ∷ tokens_of pattern
    else single (literal c) ∷ tokens_of pattern

special_isnt_star : (c : ℕ) → is_special c ≡ true → (c == b'*') ≡ false
unfolding is_special
special_isnt_star c h = elim (Bool-cases (c == b'*')) [
  | inl e ↦
      let wrong : is_special b'*' ≡ true =
        subst (λ d. is_special d ≡ true) ((==_iff c b'*').0 e) h in
      absurd (ground arith)
  | inr e ↦ e
]

plain_isnt : (c d : ℕ) → is_special d ≡ true → is_special c ≡ false → (c == d) ≡ false
plain_isnt c d s h = elim (Bool-cases (c == d)) [
  | inl e ↦
      let wrong : is_special d ≡ false = subst (λ x. is_special x ≡ false) ((==_iff c d).0 e) h in
      absurd (ground arith)
  | inr e ↦ e
]

-- The source that the code makes of one character is read back as what the pattern means by it.
read-special :
    (c : ℕ) (pattern : List ℕ)
    → is_special c ≡ true
    → read false (expand_stars (escape_specials (c ∷ pattern)))
      ≡ after (single (literal c)) (read false (expand_stars (escape_specials pattern)))
unfolding read expand_stars escape_specials
read-special c pattern h = let n = special_isnt_star c h in ground (arith, n)

read-star :
    (c : ℕ) (pattern : List ℕ)
    → (c == b'*') ≡ true
    → read false (expand_stars (escape_specials (c ∷ pattern)))
      ≡ after
          (single any_char)
          (after (repeated many) (read false (expand_stars (escape_specials pattern))))
unfolding read expand_stars escape_specials
read-star c pattern e = elim (Bool-cases (is_special c)) [
  | inl s ↦ absurd (let n = special_isnt_star c s in ground arith)
  | inr s ↦ rw s (rw e refl)
]

plain_char :
    (c : ℕ)
    → is_special c ≡ false
    → ((c == b'\\') ≡ false) × ((c == b'.') ≡ false) × ((c == b'?') ≡ false)
unfolding is_special
plain_char c h = (plain_isnt c b'\\' refl h, plain_isnt c b'.' refl h, plain_isnt c b'?' refl h)

read-plain :
    (c : ℕ) (pattern : List ℕ)
    → is_special c ≡ false
    → (c == b'*') ≡ false
    → read false (expand_stars (escape_specials (c ∷ pattern)))
      ≡ after (single (literal c)) (read false (expand_stars (escape_specials pattern)))
unfolding read expand_stars escape_specials
read-plain c pattern h n =
    let (slash, dot, question) = plain_char c h in ground (arith, slash, dot, question)

read_lem :
    (pattern : List ℕ)
    → read false (expand_stars (escape_specials pattern)) ≡ some (tokens_of pattern)
unfolding tokens_of after read expand_stars escape_specials
read_lem [] = refl
read_lem (c ∷ pattern) = elim (Bool-cases (is_special c)) [
  | inl s ↦
      let n = special_isnt_star c s in rw n (read-special c pattern s ∙ rw (read_lem pattern) refl)
  | inr s ↦ elim (Bool-cases (c == b'*')) [
    | inl e ↦ rw e (read-star c pattern e ∙ rw (read_lem pattern) refl)
    | inr n ↦ rw n (read-plain c pattern s n ∙ rw (read_lem pattern) refl)
  ]
]

group_lem : (pattern : List ℕ) → group (tokens_of pattern) ≡ some (none, map piece_of pattern)
unfolding group tokens_of piece_of
group_lem [] = refl
group_lem (c ∷ pattern) = elim (Bool-cases (c == b'*')) [
  | inl e ↦ rw e (rw (group_lem pattern) refl)
  | inr n ↦ rw n (rw (group_lem pattern) refl)
]

compile_lem :
    (pattern : List ℕ)
    → compile (expand_stars (escape_specials pattern)) ≡ some (map piece_of pattern)
unfolding compile
compile_lem pattern = rw (read_lem pattern, compile) (rw (group_lem pattern) refl)

many_times-append :
    (rest : List ℕ → Bool) (before text : List ℕ)
    → rest text ≡ true
    → many_times any_char rest (before ++ text) ≡ true
unfolding many_times fits
many_times-append rest [] [] h = h
many_times-append rest [] (c ∷ text) h = ground arith
many_times-append rest (b ∷ before) text h = ground (arith, many_times-append rest before text h)

Means-accepts :
    {pattern text : List ℕ} → Means pattern text → accepts (map piece_of pattern) text ≡ true
unfolding accepts piece_of once fits
Means-accepts done = refl
Means-accepts (same {c} {pattern} {text} n m) = rw n (ground (arith, ==_refl c, Means-accepts m))
Means-accepts (skip {pattern} {text} before m) =
    many_times-append (accepts (map piece_of pattern)) before text (Means-accepts m)

further : (d : ℕ) {glob rest : List ℕ} → Means (b'*' ∷ glob) rest → Means (b'*' ∷ glob) (d ∷ rest)
further d {glob} {rest} m = go m refl
  where
    go : {p t : List ℕ} → Means p t → p ≡ b'*' ∷ glob → Means (b'*' ∷ glob) (d ∷ t)
    go done e = absurd (ground arith)
    go (same {c} {pattern} {text} n m) e = absurd (ground arith)
    go (skip {pattern} {text} before m) e =
        subst (λ q. Means (b'*' ∷ q) (d ∷ before ++ text)) (ground arith) (skip (d ∷ before) m)

skip_some :
    (pattern text : List ℕ)
    → ((t : List ℕ) → accepts (map piece_of pattern) t ≡ true → Means pattern t)
    → many_times any_char (accepts (map piece_of pattern)) text ≡ true
    → Means (b'*' ∷ pattern) text
unfolding many_times fits
skip_some pattern [] f h = skip [] (f [] h)
skip_some pattern (c ∷ text) f h = elim (Bool-cases (accepts (map piece_of pattern) (c ∷ text))) [
  | inl q ↦ skip [] (f (c ∷ text) q)
  | inr q ↦ further c (skip_some pattern text f (rw q at h))
]

same_char :
    (c : ℕ) (pattern text : List ℕ)
    → (c == b'*') ≡ false
    → ((t : List ℕ) → accepts (map piece_of pattern) t ≡ true → Means pattern t)
    → once (literal c) (accepts (map piece_of pattern)) text ≡ true
    → Means (c ∷ pattern) text
unfolding once fits
same_char c pattern [] n f h = absurd (ground arith)
same_char c pattern (d ∷ text) n f h =
    let e : d ≡ c = (==_iff d c).0 (ground arith) in
    subst (λ k. Means (c ∷ pattern) (k ∷ text)) (sym e) (same n (f text (ground arith)))

accepts-Means :
    (pattern text : List ℕ) → accepts (map piece_of pattern) text ≡ true → Means pattern text
unfolding accepts piece_of
accepts-Means [] [] h = done
accepts-Means [] (c ∷ text) h = absurd (ground arith)
accepts-Means (c ∷ pattern) text h = elim (Bool-cases (c == b'*')) [
  | inl e ↦
      subst (λ d. Means (d ∷ pattern) text) (sym ((==_iff c b'*').0 e))
        (skip_some pattern text (accepts-Means pattern) (rw e at h))
  | inr n ↦ same_char c pattern text n (accepts-Means pattern) (rw n at h)
]

any_text : (text : List ℕ) → Means (codes "*") text
any_text text = subst (λ t. Means (codes "*") t) (append-nil text) (skip text done)

-- A pattern of a rule takes a text exactly when the pattern is empty or the text is what it says: any
-- text in place of each star, and each other character, special or not, once and in order.
pub glob_match_iff :
    (value pattern : String)
    → (glob_match value pattern ≡ true)
      ↔ ((truthy pattern ≡ false) ⊎ Means (codes pattern) (codes value))
unfolding glob_match
glob_match_iff value pattern = (there, back)
  where
    there :
        glob_match value pattern ≡ true
        → (truthy pattern ≡ false) ⊎ Means (codes pattern) (codes value)
    there h = elim (Bool-cases (not (truthy pattern) || pattern === "*")) [
      | inl e ↦ elim (Bool-cases (truthy pattern)) [
        | inl t ↦
            let w : pattern ≡ "*" = (===_iff pattern "*").0 (ground arith) in
            inr (subst (λ p. Means (codes p) (codes value)) (sym w) (any_text (codes value)))
        | inr n ↦ inl n
      ]
      | inr e ↦
          let tested = rw e at h in
          let found = rw (compile_lem (codes pattern)) at tested in
          inr (accepts-Means (codes pattern) (codes value) found)
    ]

    back :
        (truthy pattern ≡ false) ⊎ Means (codes pattern) (codes value)
        → glob_match value pattern ≡ true
    back (inl e) = rw e refl
    back (inr m) = elim (Bool-cases (not (truthy pattern) || pattern === "*")) [
      | inl e ↦ rw e refl
      | inr e ↦ rw e (rw (compile_lem (codes pattern)) (Means-accepts m))
    ]

Means-refl : (text : List ℕ) → Means text text
Means-refl [] = done
Means-refl (c ∷ text) = elim (Bool-cases (c == b'*')) [
  | inl e ↦
      subst (λ d. Means (d ∷ text) (c ∷ text)) (sym ((==_iff c b'*').0 e))
        (skip (c ∷ []) (Means-refl text))
  | inr n ↦ same n (Means-refl text)
]

-- Each text matches itself as a pattern, whatever special characters it has.
pub glob_match_self : (text : String) → glob_match text text ≡ true
glob_match_self text = (glob_match_iff text text).1 (inr (Means-refl (codes text)))
