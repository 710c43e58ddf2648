-- ===== src/Approvals/Glob.antt =====
-- The patterns of approval rules: `globMatch` of server/approvals.ts. The pattern is made into the
-- source of a regular expression, which is then read as JavaScript reads it: an escaped character
-- stands for itself, `.` for any character (the flag `s`), `*` and `?` repeat what stands before them.
-- Other special characters that are not escaped are not read, as no pattern has them then.
use velarix_bot.Prelude.{
  ℕ, String, Bool, true, false, not, List, [], ◌∷◌, ◌&&◌, ◌||◌, Option, none, some, ◌==◌, ◌===◌,
  if◌then◌else◌, is_some, any, codes, truthy,
}

-- The characters of the class `[.+^${}()|[\]\\?]`.
abbrev pub specials : List ℕ
specials = codes ".+^${}()|[]\\?"

unfoldable pub is_special : ℕ → Bool
is_special c = any (λ s. c == s) specials

unfoldable pub escape_specials : List ℕ → List ℕ
escape_specials [] = []
escape_specials (c ∷ pattern) =
    if is_special c then b'\\' ∷ c ∷ escape_specials pattern else c ∷ escape_specials pattern

unfoldable pub expand_stars : List ℕ → List ℕ
expand_stars [] = []
expand_stars (c ∷ pattern) =
    if c == b'*' then b'.' ∷ b'*' ∷ expand_stars pattern else c ∷ expand_stars pattern

pub data Atom : Type 0 where
  any_char : Atom
  literal : ℕ → Atom

pub data Quantifier : Type 0 where
  optional many : Quantifier

pub data Token : Type 0 where
  single : Atom → Token
  repeated : Quantifier → Token

unfoldable pub after : Token → Option (List Token) → Option (List Token)
after t none = none
after t (some ts) = some (t ∷ ts)

-- The flag says that the character before was the escaping one.
unfoldable pub read : Bool → List ℕ → Option (List Token)
unfolding after
read false [] = some []
read true [] = none
read true (c ∷ source) =
    let rest = read false source in if is_special c then after (single (literal c)) rest else none
read false (c ∷ source) =
    let rest = read false source in
    let escaped = read true source in
    if c == b'\\'
    then escaped
    else if c == b'.'
    then after (single any_char) rest
    else if c == b'*'
    then after (repeated many) rest
    else if c == b'?'
    then after (repeated optional) rest
    else if is_special c
    then none
    else after (single (literal c)) rest

pub record Piece : Type 0 where
  pub atom : Atom
  pub times : Option Quantifier

-- A quantifier belongs to the atom before it; the first of the tokens that is left over is given too.
unfoldable pub group : List Token → Option (Option Quantifier × List Piece)
group [] = some (none, [])
group (single a ∷ tokens) = elim (group tokens) [
  | none ↦ none
  | some (q, pieces) ↦ some (none, record { atom = a; times = q } ∷ pieces)
]
group (repeated k ∷ tokens) = elim (group tokens) [
  | none ↦ none
  | some (q, pieces) ↦ if is_some q then none else some (some k, pieces)
]

-- What `RegExp` makes of a source, none where it throws.
unfoldable pub compile : List ℕ → Option (List Piece)
unfolding read group
compile source = elim (read false source) [
  | none ↦ none
  | some tokens ↦ elim (group tokens) [
    | none ↦ none
    | some (q, pieces) ↦ if is_some q then none else some pieces
  ]
]

unfoldable pub fits : Atom → ℕ → Bool
fits any_char c = true
fits (literal l) c = c == l

unfoldable pub once : Atom → (List ℕ → Bool) → List ℕ → Bool
unfolding fits
once a rest [] = false
once a rest (c ∷ text) = fits a c && rest text

unfoldable pub many_times : Atom → (List ℕ → Bool) → List ℕ → Bool
unfolding fits
many_times a rest [] = rest []
many_times a rest (c ∷ text) = rest (c ∷ text) || (fits a c && many_times a rest text)

unfoldable pub accepts : List Piece → List ℕ → Bool
unfolding once many_times
accepts [] [] = true
accepts [] (c ∷ text) = false
accepts (p ∷ pieces) text = elim p.times [
  | none ↦ once p.atom (accepts pieces) text
  | some optional ↦ accepts pieces text || once p.atom (accepts pieces) text
  | some many ↦ many_times p.atom (accepts pieces) text
]

unfoldable pub glob_match : String → String → Bool
unfolding compile accepts escape_specials expand_stars
glob_match value pattern =
    if not (truthy pattern) || pattern === "*"
    then true
    else elim (compile (expand_stars (escape_specials (codes pattern)))) [
      | none ↦ false
      | some pieces ↦ accepts pieces (codes value)
    ]
