-- ===== src/Oauth/Tests.antt =====
-- The theorems on transactions at concrete inputs, with a digest that changes nothing.
use velarix_bot.Prelude.{String, List, [], ◌∷◌, none, some, ◌≡◌, ◌≤◌, refl, arith, length}
use velarix_bot.Oauth.{
  Transaction, max_stored_transactions, create, consume, new_row, is_token, live, drop_oldest,
  is_open,
}
use velarix_bot.Oauth.Laws.{create-length, consume_once}

abbrev as_is : String → String
as_is text = text

abbrev state : String
state = "0123456789012345678901234567890123456789abc"

abbrev cookie : String
cookie = "0123456789012345678901234567890123456789xyz"

abbrev stored : List Transaction
stored = new_row as_is state cookie "v" 5 ∷ []

creates : create as_is state cookie "v" 5 [] ≡ some stored
unfolding create live drop_oldest
creates = refl

consumes : (consume as_is state cookie 7 stored).1 ≡ some "v"
unfolding consume is_token is_open
consumes = refl

create-length_example : length stored ≤ max_stored_transactions
create-length_example = create-length as_is state cookie "v" 5 [] stored creates

consume_once_example :
    let rows' = (consume as_is state cookie 7 stored).0 in
    (consume as_is state cookie 8 rows').1 ≡ none
consume_once_example = consume_once as_is state cookie 7 8 stored (omega arith, tt) (omega arith)
