-- ===== src/Prelude/Text.antt =====
-- Texts: strict equality, truthiness and trim of JavaScript strings, and the code points of a text.
use Prim.Native.Char.{Char, code}
use Prim.Native.Nat.{ℕ, ◌+◌, ◌-◌}
use Prim.Native.String.{String}
use mathlib.Core.Path.{◌≡◌, refl, ap, ◌∙◌}
use mathlib.Core.Logic.{◌↔◌, ◌⊎◌, inl, inr}
use native.Mathlib.Omega.{arith}
use mathlib.Core.Bool.{Bool, true, false, ◌&&◌, ◌||◌}
use mathlib.Core.List.{List, [], ◌∷◌}
use text.Mathlib.Text.{◌==◌ as str_eq}
use text.Mathlib.TextEquality.{eq_iff}
use text.Mathlib.TextPositions.{eq_refl}
use velarix_bot.Prelude.Tests.{if◌then◌else◌, Bool-cases, leb, ◌==◌}

-- `s === t` on strings.
infix 50 ◌===◌
abbrev pub ◌===◌ : String → String → Bool
s === t = str_eq s t

pub ===_iff : (s t : String) → ((s === t) ≡ true) ↔ (s ≡ t)
===_iff s t = eq_iff s t

pub ===_refl : (s : String) → (s === s) ≡ true
===_refl s = eq_refl s

-- `Boolean(s)`: only the empty text is falsy.
abbrev pub truthy : String → Bool
truthy String.[] = false
truthy (String.◌∷◌ c s) = true

-- The code points of a text.
abbrev pub codes : String → List ℕ
codes String.[] = []
codes (String.◌∷◌ c s) = code c ∷ codes s

-- `s.length`: a code point above the basic plane takes two units.
unfoldable pub utf16_length : String → ℕ
utf16_length String.[] = 0
utf16_length (String.◌∷◌ c s) = (if leb 0x10000 (code c) then 2 else 1) + utf16_length s

-- `s.slice(0, n)`. A code point of two units that the cut would divide is left out whole.
unfoldable pub slice : ℕ → String → String
slice n String.[] = ""
slice n (String.◌∷◌ c s) =
    let units = if leb 0x10000 (code c) then 2 else 1 in
    let rest = slice (n - units) s in if leb units n then String.◌∷◌ c rest else ""

-- The white space and line terminators that `trim` strips.
unfoldable pub is_space : ℕ → Bool
is_space c =
    (leb 9 c && leb c 13)
    || c == 32
    || c == 0xa0
    || c == 0x1680
    || (leb 0x2000 c && leb c 0x200a)
    || c == 0x2028
    || c == 0x2029
    || c == 0x202f
    || c == 0x205f
    || c == 0x3000
    || c == 0xfeff

trim_start : String → String
trim_start String.[] = ""
trim_start (String.◌∷◌ c s) =
    let rest = trim_start s in if is_space (code c) then rest else String.◌∷◌ c s

trim_end : String → String
trim_end String.[] = ""
trim_end (String.◌∷◌ c s) =
    let rest = trim_end s in if is_space (code c) && rest === "" then "" else String.◌∷◌ c rest

-- `s.trim()`.
unfoldable pub trim : String → String
unfolding trim_start trim_end is_space
trim s = trim_end (trim_start s)

trim_test : (trim "  a b\n" ≡ "a b") × (trim " \t" ≡ "")
unfolding trim
trim_test = (refl, refl)

-- A trimmed text that is not empty starts with a character that stays when it is trimmed again.
trim_start-head :
    (s : String)
    → (trim_start s ≡ "")
      ⊎ ((c : Char) × (r : String) × (trim_start s ≡ String.◌∷◌ c r) × (is_space (code c) ≡ false))
unfolding trim_start
trim_start-head String.[] = inl refl
trim_start-head (String.◌∷◌ c s) = elim (Bool-cases (is_space (code c))) [
  | inl q ↦ rw (q, trim_start) (trim_start-head s)
  | inr q ↦ inr (c, s, rw (q, trim_start) refl, q)
]

trim_end-head :
    (c : Char) (r : String)
    → is_space (code c) ≡ false
    → trim_end (String.◌∷◌ c r) ≡ String.◌∷◌ c (trim_end r)
unfolding trim_end
trim_end-head c r q = rw (q, trim_end) refl

pub truthy-trim : (s : String) → truthy (trim s) ≡ true → truthy (trim (trim s)) ≡ true
unfolding trim trim_start trim_end
truthy-trim s h = elim (trim_start-head s) [
  | inl e ↦ absurd (let k : false ≡ true = rw e at h in ground arith)
  | inr (c, r, e, q) ↦
      let first : trim_end (trim_start s) ≡ String.◌∷◌ c (trim_end r) =
        ap trim_end e ∙ trim_end-head c r q in
      let again : trim_start (String.◌∷◌ c (trim_end r)) ≡ String.◌∷◌ c (trim_end r) =
        rw (q, trim_start) refl in
      let second : trim_end (trim_start (trim_end (trim_start s)))
          ≡ String.◌∷◌ c (trim_end (trim_end r)) =
        ap (λ x. trim_end (trim_start x)) first
        ∙ ap trim_end again
        ∙ trim_end-head c (trim_end r) q in
      ap truthy second
]
