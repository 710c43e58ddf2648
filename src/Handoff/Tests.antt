-- ===== src/Handoff/Tests.antt =====
-- The theorems on credential asks at concrete inputs.
use velarix_bot.Prelude.{String, true, false, [], ◌∷◌, none, some, ◌≡◌, refl}
use velarix_bot.Handoff.{
  credential, question, speaks_of_sign_in, is_credential_ask, handoff_continue,
  classify_opened_request, should_offer_desktop,
}

abbrev hide : String → String
hide text = "[hidden]"

asks :
    (is_credential_ask "permission" "Bash" "Please SIGN-in now" ≡ true)
    × (is_credential_ask "permission" "Bash" "sig in" ≡ false)
    × (is_credential_ask "permission" "lo" "gin" ≡ false)
    × (is_credential_ask "log" "in" "" ≡ true)
    × (classify_opened_request hide "question" "Bash" "which one" (some ("a" ∷ []))
        ≡ record { request_type = question; summary = "which one"; choices = some ("a" ∷ []) })
    × (classify_opened_request hide "question" "Bash" "your otp" none ≡ record {
      request_type = credential;
      summary = "[hidden]";
      choices = some (handoff_continue ∷ []);
    })
    × (should_offer_desktop (some "cloud") true ≡ true)
    × (should_offer_desktop none true ≡ false)
unfolding is_credential_ask speaks_of_sign_in classify_opened_request should_offer_desktop
asks = (refl, refl, refl, refl, refl, refl, refl, refl)
