-- ===== src/Prelude/Dict.antt =====
-- JavaScript's Map with text keys: an association list in insertion order.
use Prim.Native.String.{String}
use mathlib.Core.Path.{◌≡◌, refl, subst}
use mathlib.Core.Logic.{inl, inr}
use mathlib.Core.List.{List, [], ◌∷◌}
use mathlib.Core.Option.{Option, none, some}
use native.Mathlib.Omega.{arith}
use velarix_bot.Prelude.Tests.{if◌then◌else◌, Bool-cases}
use velarix_bot.Prelude.Text.{◌===◌, ===_iff}

abbrev pub Dict {ℓ} : Type ℓ → Type ℓ
Dict V = List (String × V)

module _ {ℓ} {V : Type ℓ} where
  unfoldable pub get : String → Dict V → Option V
  get k [] = none
  get k ((j, v) ∷ m) = if j === k then some v else get k m

  unfoldable pub set : String → V → Dict V → Dict V
  set k v [] = (k, v) ∷ []
  set k v ((j, w) ∷ m) = if j === k then (k, v) ∷ m else (j, w) ∷ set k v m

  unfoldable pub delete : String → Dict V → Dict V
  delete k [] = []
  delete k ((j, w) ∷ m) = if j === k then delete k m else (j, w) ∷ delete k m

  pub get-set :
      (k j : String) (v : V) (m : Dict V)
      → get j (set k v m) ≡ (if k === j then some v else get j m)
  unfolding get set
  get-set k j v [] = refl
  get-set k j v ((i, w) ∷ m) =
      ground (arith, ===_iff k j, ===_iff i k, ===_iff i j, get-set k j v m)

  pub get-delete :
      (k j : String) (m : Dict V) → get j (delete k m) ≡ (if k === j then none else get j m)
  unfolding get delete
  get-delete k j [] = ground arith
  get-delete k j ((i, w) ∷ m) =
      ground (arith, ===_iff k j, ===_iff i k, ===_iff i j, get-delete k j m)

module _ {ℓ κ} {V : Type ℓ} (P : V → Type κ) where
  abbrev pub AllValues : Dict V → Type κ
  AllValues [] = Unit
  AllValues ((k, v) ∷ m) = P v × AllValues m

  pub set-AllValues : (k : String) (v : V) (m : Dict V) → P v → AllValues m → AllValues (set k v m)
  unfolding set
  set-AllValues k v [] p h = (p, tt)
  set-AllValues k v ((j, w) ∷ m) p h = ground (arith, set-AllValues k v m p h.1)

  pub delete-AllValues : (k : String) (m : Dict V) → AllValues m → AllValues (delete k m)
  unfolding delete
  delete-AllValues k [] h = tt
  delete-AllValues k ((j, w) ∷ m) h = ground (arith, delete-AllValues k m h.1)

  pub get-AllValues : (k : String) (m : Dict V) (v : V) → AllValues m → get k m ≡ some v → P v
  unfolding get
  get-AllValues k [] v h e = absurd (ground arith)
  get-AllValues k ((j, w) ∷ m) v h e = elim (Bool-cases (j === k)) [
    | inl q ↦ let same : w ≡ v = ground arith in subst P same h.0
    | inr q ↦ get-AllValues k m v h.1 (ground arith)
  ]
