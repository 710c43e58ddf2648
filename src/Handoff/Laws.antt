-- ===== src/Handoff/Laws.antt =====
-- What the card of an ask shows (server/handoff.ts).
use velarix_bot.Prelude.{
  ℕ, ◌≤◌, String, true, List, [], ◌∷◌, ◌++◌, ◌||◌, Option, none, some, arith, ◌≡◌, refl, ◌↔◌, ◌===◌,
  if◌then◌else◌, any, length, length-take-le, codes, Bool-cases, inl, inr, get_or_else,
}
use velarix_bot.Handoff.{
  credential, Part, letter, gap, matches_here, found_in, speaks_of_sign_in, sign_in_patterns,
  is_credential_ask, classify_opened_request,
}

-- An ask that speaks of signing in goes on doing so with text before or after it.
matches_here-append :
    (parts : List Part) (text more : List ℕ)
    → matches_here parts text ≡ true
    → matches_here parts (text ++ more) ≡ true
unfolding matches_here
matches_here-append [] text more h = refl
matches_here-append (letter l ∷ parts) [] more h = absurd (ground arith)
matches_here-append (letter l ∷ parts) (c ∷ text) more h =
    ground (arith, matches_here-append parts text more)
matches_here-append (gap ∷ parts) [] [] h = h
matches_here-append (gap ∷ parts) [] (c ∷ more) h =
    ground (arith, matches_here-append parts [] (c ∷ more))
matches_here-append (gap ∷ parts) (c ∷ text) more h =
    ground (arith, matches_here-append parts (c ∷ text) more, matches_here-append parts text more)

found_in-empty :
    (parts : List Part) (more : List ℕ) → matches_here parts [] ≡ true → found_in parts more ≡ true
unfolding found_in
found_in-empty parts [] h = h
found_in-empty parts (c ∷ more) h = ground (arith, matches_here-append parts [] (c ∷ more))

found_in-append :
    (parts : List Part) (text more : List ℕ)
    → found_in parts text ≡ true
    → found_in parts (text ++ more) ≡ true
unfolding found_in
found_in-append parts [] more h = found_in-empty parts more h
found_in-append parts (c ∷ text) more h =
    ground (arith, matches_here-append parts (c ∷ text) more, found_in-append parts text more)

found_in-prepend :
    (parts : List Part) (before text : List ℕ)
    → found_in parts text ≡ true
    → found_in parts (before ++ text) ≡ true
unfolding found_in
found_in-prepend parts [] text h = h
found_in-prepend parts (c ∷ before) text h = ground (arith, found_in-prepend parts before text h)

any_mono :
    (ps : List (List Part)) (text text' : List ℕ)
    → ((p : List Part) → found_in p text ≡ true → found_in p text' ≡ true)
    → any (λ p. found_in p text) ps ≡ true
    → any (λ p. found_in p text') ps ≡ true
any_mono [] text text' f h = h
any_mono (p ∷ ps) text text' f h = ground (arith, f p, any_mono ps text text' f)

speaks_of_sign_in-append :
    (text more : List ℕ) → speaks_of_sign_in text ≡ true → speaks_of_sign_in (text ++ more) ≡ true
unfolding speaks_of_sign_in
speaks_of_sign_in-append text more h =
    any_mono sign_in_patterns text (text ++ more) (λ p k. found_in-append p text more k) h

speaks_of_sign_in-prepend :
    (before text : List ℕ)
    → speaks_of_sign_in text ≡ true
    → speaks_of_sign_in (before ++ text) ≡ true
unfolding speaks_of_sign_in
speaks_of_sign_in-prepend before text h =
    any_mono sign_in_patterns text (before ++ text) (λ p k. found_in-prepend p before text k) h

-- Whatever the kind and the tool are, an ask is about signing in if its summary speaks of that, and
-- if its tool does: no text around hides it.
is_credential_ask_anywhere :
    (kind tool summary : String)
    → (speaks_of_sign_in (codes tool) || speaks_of_sign_in (codes summary)) ≡ true
    → is_credential_ask kind tool summary ≡ true
unfolding is_credential_ask
is_credential_ask_anywhere kind tool summary h =
    let tail = 32 ∷ codes summary in
    let rest = codes tool ++ tail in
    speaks_of_sign_in-prepend (codes kind) (32 ∷ rest) (
      speaks_of_sign_in-prepend (32 ∷ []) rest (elim (Bool-cases (speaks_of_sign_in (codes tool))) [
        | inl t ↦ speaks_of_sign_in-append (codes tool) tail t
        | inr f ↦
            speaks_of_sign_in-prepend (codes tool) tail
              (speaks_of_sign_in-prepend (32 ∷ []) (codes summary) (rw f at h))
      ]))

-- The card of an ask: its type is credential exactly for a credential kind or an ask about signing
-- in, and then it shows the sanitized summary and always some choice; any other summary is shown as
-- it is; and no card offers more than five choices.
classify_opened_request-card :
    (sanitize : String → String) (kind tool summary : String) (choices : Option (List String))
    → let opened = classify_opened_request sanitize kind tool summary choices in
      let secret = kind === "credential" || is_credential_ask kind tool summary in
      ((opened.request_type ≡ credential) ↔ (secret ≡ true))
      × (opened.summary ≡ (if secret then sanitize summary else summary))
      × (length (get_or_else opened.choices []) ≤ 5)
      × ((if secret then 1 else 0) ≤ length (get_or_else opened.choices []))
unfolding classify_opened_request
classify_opened_request-card sanitize kind tool summary none = grind arith
classify_opened_request-card sanitize kind tool summary (some []) = grind arith
classify_opened_request-card sanitize kind tool summary (some (c ∷ cs)) =
    grind (arith, length-take-le 5 (c ∷ cs))
