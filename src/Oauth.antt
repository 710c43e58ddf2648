-- ===== src/Oauth.antt =====
-- The transactions of a sign-in by OAuth, server/oauth/transactions.ts: the table
-- github_oauth_transactions is the list of its rows. SHA-256 is the argument `digest`; the random texts
-- are arguments, and what `create` returns of them is left out. A time that is no safe integer is an
-- error or no transaction.
mod Laws
mod Tests
use Prim.Native.Nat.{compare as compare_ℕ, Ordering}
use Prim.Native.String.{compare}
use velarix_bot.Prelude.{
  ℕ, zero, suc, ◌+◌, ◌-◌, ◌*◌, String, Bool, true, false, not, List, [], ◌∷◌, ◌++◌, ◌&&◌, ◌||◌,
  Option, none, some, ltb, leb, ◌==◌, ◌===◌, if◌then◌else◌, find_first, any, every, keep, length,
  codes, is_some,
}

abbrev pub max_age_seconds : ℕ
max_age_seconds = 10 * 60

abbrev pub max_stored_transactions : ℕ
max_stored_transactions = 10000

abbrev max_safe_integer : ℕ
max_safe_integer = 9007199254740991

pub record Transaction : Type 0 where
  pub state_digest : String
  pub cookie_digest : String
  pub code_verifier : String
  pub issued_at : ℕ
  pub expires_at : ℕ
  pub consumed_at : Option ℕ

is_token_char : ℕ → Bool
is_token_char c =
    (leb b'A' c && leb c b'Z')
    || (leb b'a' c && leb c b'z')
    || (leb b'0' c && leb c b'9')
    || c == b'_'
    || c == b'-'

pub is_token : String → Bool
unfolding is_token_char
is_token value = length (codes value) == 43 && every is_token_char (codes value)

abbrev pub valid_timestamp : ℕ → Bool
valid_timestamp now = leb now max_safe_integer

-- `expires_at <= now` is the test of what is deleted.
pub live : ℕ → List Transaction → List Transaction
live now rows = keep (λ t. ltb now t.expires_at) rows

-- `ORDER BY issued_at ASC, state_digest ASC`.
before : Transaction → Transaction → Bool
before a b = elim (compare_ℕ a.issued_at b.issued_at) [
  | Ordering.lt ↦ true
  | Ordering.gt ↦ false
  | Ordering.eq ↦ elim (compare a.state_digest b.state_digest) [ Ordering.gt ↦ false | _ ↦ true ]
]

-- The oldest row of a list that starts with the given one, and the others.
oldest : Transaction → List Transaction → Transaction × List Transaction
oldest t [] = (t, [])
oldest t (u ∷ us) = let (o, rest) = oldest u us in if before t o then (t, u ∷ us) else (o, t ∷ rest)

pub drop_one : List Transaction → List Transaction
unfolding before oldest
drop_one [] = []
drop_one (t ∷ ts) = (oldest t ts).1

-- The oldest `n` rows are deleted.
pub drop_oldest : ℕ → List Transaction → List Transaction
drop_oldest zero rows = rows
drop_oldest (suc n) rows = drop_oldest n (drop_one rows)

abbrev pub new_row : (String → String) → String → String → String → ℕ → Transaction
new_row digest state cookie code_verifier now = record {
  state_digest = digest state;
  cookie_digest = digest cookie;
  code_verifier = code_verifier;
  issued_at = now;
  expires_at = now + max_age_seconds * 1000;
  consumed_at = none;
}

pub create :
    (String → String) → String → String → String → ℕ → List Transaction → Option (List Transaction)
create digest state cookie code_verifier now rows =
    let kept = live now rows in
    let excess = length kept - (max_stored_transactions - 1) in
    if not (valid_timestamp now)
    then none
    else some (drop_oldest excess kept ++ new_row digest state cookie code_verifier now ∷ [])

pub is_open : (String → String) → String → String → ℕ → Transaction → Bool
is_open digest state cookie now t =
    t.state_digest === digest state
    && (t.cookie_digest === digest cookie
        && (not (is_some t.consumed_at) && (leb t.issued_at now && ltb now t.expires_at)))

pub mark_consumed : (Transaction → Bool) → ℕ → List Transaction → List Transaction
mark_consumed p now [] = []
mark_consumed p now (t ∷ ts) =
    (if p t then record t { consumed_at = some now } else t) ∷ mark_consumed p now ts

pub consume :
    (String → String) → String → String → ℕ → List Transaction → List Transaction × Option String
consume digest state cookie now rows =
    let p = is_open digest state cookie now in
    if is_token state && (is_token cookie && valid_timestamp now)
    then (
      mark_consumed p now rows,
      elim (find_first p rows) [ none ↦ none | some t ↦ some t.code_verifier ],
    )
    else (rows, none)

-- none is the TypeError.
pub prune : ℕ → List Transaction → Option (List Transaction)
prune now rows = if not (valid_timestamp now) then none else some (live now rows)
