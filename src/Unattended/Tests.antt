-- ===== src/Unattended/Tests.antt =====
-- The theorems on unattended marks at concrete inputs.
use velarix_bot.Prelude.{
  ℕ, String, Bool, true, false, not, ◌&&◌, [], ◌∷◌, none, some, ◌≡◌, refl, ltb, ◌-◌, if◌then◌else◌,
  ◌===◌,
}
use velarix_bot.Prelude.Dict.{Dict, get, set, delete}
use velarix_bot.Unattended.{unattended_ttl_ms, is_unattended, hop_unattended}
use velarix_bot.Unattended.Laws.{is_unattended_iff}

abbrev never_busy : String → Bool
never_busy id = false

abbrev marked : Dict ℕ
marked = ("a", 1000) ∷ []

expires :
    (is_unattended never_busy (some "a") 1801000 marked ≡ (("a", 1801000) ∷ [], true))
    × (is_unattended never_busy (some "a") 1801001 marked ≡ ([], false))
    × (hop_unattended never_busy none (some true) 5 marked ≡ (marked, true))
unfolding is_unattended hop_unattended get set delete
expires = (refl, refl, refl)

is_unattended_iff_example :
    let (marks', unattended) = is_unattended never_busy (some "a") 7 marked in
    (unattended ≡ elim (get "a" marked) [
      | none ↦ false
      | some m ↦ not (ltb unattended_ttl_ms (7 - m) && not false)
    ])
    × (get "a" marks' ≡ (if unattended then some 7 else none))
    × (get "b" marks'
        ≡ (if "a" === "b" then (if unattended then some 7 else none) else get "b" marked))
is_unattended_iff_example = is_unattended_iff never_busy "a" "b" 7 marked refl
