-- ===== src/Prelude/Lists.antt =====
-- Lists measured and indexed by native numbers, under the library's names, with the array methods
-- that the source calls: find, filter, some, every, and a predicate on all items.
use Prim.Native.Nat.{ℕ, zero, suc, ◌+◌, ◌≤◌}
use mathlib.Core.Path.{◌≡◌, refl, subst}
use mathlib.Core.Logic.{inl, inr}
use mathlib.Core.Bool.{Bool, true, false, ◌&&◌, ◌||◌}
use mathlib.Core.List.{Memᴰ, List, [], ◌∷◌, ◌++◌}
use mathlib.Core.Option.{Option, none, some}
use native.Mathlib.Omega.{arith}
use velarix_bot.Prelude.Tests.{if◌then◌else◌, Bool-cases}

module _ {ℓ} {A : Type ℓ} where
  abbrev pub length : List A → ℕ
  length [] = 0
  length (x ∷ xs) = suc (length xs)

  abbrev pub get_elem? : List A → ℕ → Option A
  get_elem? [] i = none
  get_elem? (x ∷ xs) zero = some x
  get_elem? (x ∷ xs) (suc i) = get_elem? xs i

  abbrev pub take : ℕ → List A → List A
  take zero xs = []
  take (suc n) [] = []
  take (suc n) (x ∷ xs) = x ∷ take n xs

  -- `xs.find(p)`, `xs.some(p)`, `xs.every(p)` and `xs.filter(p)`.
  abbrev pub find_first : (A → Bool) → List A → Option A
  find_first p [] = none
  find_first p (x ∷ xs) = if p x then some x else find_first p xs

  abbrev pub any : (A → Bool) → List A → Bool
  any p [] = false
  any p (x ∷ xs) = p x || any p xs

  abbrev pub every : (A → Bool) → List A → Bool
  every p [] = true
  every p (x ∷ xs) = p x && every p xs

  abbrev pub keep : (A → Bool) → List A → List A
  keep p [] = []
  keep p (x ∷ xs) = if p x then x ∷ keep p xs else keep p xs

  pub length-append : (xs ys : List A) → length (xs ++ ys) ≡ length xs + length ys
  length-append [] ys = omega arith
  length-append (x ∷ xs) ys = omega (arith, length-append xs ys)

  pub length-take-le : (n : ℕ) (xs : List A) → length (take n xs) ≤ n
  length-take-le zero xs = omega arith
  length-take-le (suc n) [] = omega arith
  length-take-le (suc n) (x ∷ xs) = omega (arith, length-take-le n xs)

  pub length-keep-le : (p : A → Bool) (xs : List A) → length (keep p xs) ≤ length xs
  length-keep-le p [] = omega arith
  length-keep-le p (x ∷ xs) = ground (arith, length-keep-le p xs)

  -- What `find` returns stands in the list and passes the test.
  pub find_first_sound :
      (p : A → Bool) (xs : List A) (x : A) → find_first p xs ≡ some x → (p x ≡ true) × Memᴰ x xs
  find_first_sound p [] x e = absurd (ground arith)
  find_first_sound p (y ∷ xs) x e = elim (Bool-cases (p y)) [
    | inl q ↦
        let eq : y ≡ x = ground arith in
        subst (λ z. (p z ≡ true) × Memᴰ z (y ∷ xs)) eq (q, Memᴰ.head refl)
    | inr q ↦ let (h, m) = find_first_sound p xs x (rw q at e) in (h, Memᴰ.tail m)
  ]

  pub find_first_finds :
      (p : A → Bool) (xs : List A) (x : A)
      → Memᴰ x xs
      → p x ≡ true
      → (y : A) × (find_first p xs ≡ some y)
  find_first_finds p (y ∷ xs) x m h = elim (Bool-cases (p y)) [
    | inl q ↦ (y, rw q refl)
    | inr q ↦ rw q (elim m [
      | Memᴰ.head e ↦ absurd (let k : p y ≡ true = subst (λ z. p z ≡ true) e h in ground arith)
      | Memᴰ.tail m' ↦ find_first_finds p xs x m' h
    ])
  ]
  find_first_finds p [] x m h = elim m [ ]

  pub Memᴰ-append : (xs : List A) (x : A) → Memᴰ x (xs ++ x ∷ [])
  Memᴰ-append [] x = Memᴰ.head refl
  Memᴰ-append (y ∷ xs) x = Memᴰ.tail (Memᴰ-append xs x)

module _ {ℓ κ} {A : Type ℓ} (P : A → Type κ) where
  abbrev pub All : List A → Type κ
  All [] = Unit
  All (x ∷ xs) = P x × All xs

  pub All-append : (xs ys : List A) → All xs → All ys → All (xs ++ ys)
  All-append [] ys hx hy = hy
  All-append (x ∷ xs) ys hx hy = (hx.0, All-append xs ys hx.1 hy)

  pub All-take : (n : ℕ) (xs : List A) → All xs → All (take n xs)
  All-take zero xs h = tt
  All-take (suc n) [] h = tt
  All-take (suc n) (x ∷ xs) h = (h.0, All-take n xs h.1)

  pub All-keep : (p : A → Bool) (xs : List A) → All xs → All (keep p xs)
  All-keep p [] h = tt
  All-keep p (x ∷ xs) h = ground (arith, All-keep p xs h.1)

  pub All-find_first :
      (p : A → Bool) (xs : List A) (x : A) → All xs → find_first p xs ≡ some x → P x
  All-find_first p (y ∷ xs) x h e = elim (Bool-cases (p y)) [
    | inl q ↦ let same : y ≡ x = ground arith in subst P same h.0
    | inr q ↦ All-find_first p xs x h.1 (rw q at e)
  ]
  All-find_first p [] x h e = absurd (ground arith)
