-- ===== src/Oauth/Laws.antt =====
-- Transactions are consumed once and are bounded in number (server/oauth/transactions.ts).
use velarix_bot.Prelude.{
  ℕ, zero, suc, ◌-◌, ◌≤◌, String, false, List, [], ◌∷◌, ◌++◌, none, some, arith, ◌≡◌, refl, inl,
  inr, Bool-cases, find_first, length, length-append, All,
}
use velarix_bot.Oauth.{
  Transaction, max_stored_transactions, live, oldest, drop_one, drop_oldest, create, new_row,
  is_open, mark_consumed, consume,
}

length-oldest : (t : Transaction) (ts : List Transaction) → length (oldest t ts).1 ≡ length ts
unfolding oldest
length-oldest t [] = refl
length-oldest t (u ∷ us) = ground (arith, length-oldest u us)

length-drop_oldest :
    (n : ℕ) (rows : List Transaction) → length (drop_oldest n rows) ≡ length rows - n
unfolding drop_oldest drop_one
length-drop_oldest zero rows = omega arith
length-drop_oldest (suc n) [] = omega (arith, length-drop_oldest n [])
length-drop_oldest (suc n) (t ∷ ts) =
    omega (arith, length-drop_oldest n (oldest t ts).1, length-oldest t ts)

length-drop_excess :
    (kept : List Transaction) (t : Transaction)
    → length (drop_oldest (length kept - (max_stored_transactions - 1)) kept ++ t ∷ [])
      ≤ max_stored_transactions
length-drop_excess kept t =
    let excess = length kept - (max_stored_transactions - 1) in
    omega (arith, length-drop_oldest excess kept, length-append (drop_oldest excess kept) (t ∷ []))

-- However many transactions are stored, after a new one is created there are no more than the limit.
pub create-length :
    (digest : String → String) (state cookie code_verifier : String) (now : ℕ)
    (rows rows' : List Transaction)
    → create digest state cookie code_verifier now rows ≡ some rows'
    → length rows' ≤ max_stored_transactions
unfolding create
create-length digest state cookie code_verifier now rows rows' e =
    ground
      (arith, e, length-drop_excess (live now rows) (new_row digest state cookie code_verifier now))

is_open-consumed :
    (digest : String → String) (state cookie : String) (now later : ℕ) (t : Transaction)
    → is_open digest state cookie later (record t { consumed_at = some now }) ≡ false
unfolding is_open
is_open-consumed digest state cookie now later t = ground arith

is_open-kept :
    (digest : String → String) (state cookie : String) (now later : ℕ) (t : Transaction)
    → t.issued_at ≤ now
    → now ≤ later
    → is_open digest state cookie now t ≡ false
    → is_open digest state cookie later t ≡ false
unfolding is_open
is_open-kept digest state cookie now later t i l e = ground arith

mark_consumed-none :
    (digest : String → String) (state cookie : String) (now later : ℕ) (rows : List Transaction)
    → All (λ t. (t.issued_at ≤ now)) rows
    → now ≤ later
    → find_first
        (is_open digest state cookie later)
        (mark_consumed (is_open digest state cookie now) now rows)
      ≡ none
unfolding mark_consumed
mark_consumed-none digest state cookie now later [] h l = refl
mark_consumed-none digest state cookie now later (t ∷ ts) h l =
    let rest = mark_consumed-none digest state cookie now later ts h.1 l in
    elim (Bool-cases (is_open digest state cookie now t)) [
      | inl q ↦ rw (q, mark_consumed) (rw (is_open-consumed digest state cookie now later t) rest)
      | inr q ↦
          rw (q, mark_consumed) (rw (is_open-kept digest state cookie now later t h.0 l q) rest)
    ]

-- A state and cookie that were presented are not accepted a second time, whatever the first answer
-- was, if no transaction was issued after the first time and the clock does not go back.
pub consume_once :
    (digest : String → String) (state cookie : String) (now later : ℕ) (rows : List Transaction)
    → All (λ t. (t.issued_at ≤ now)) rows
    → now ≤ later
    → let rows' = (consume digest state cookie now rows).0 in
      (consume digest state cookie later rows').1 ≡ none
unfolding consume
consume_once digest state cookie now later rows h l =
    let none_left = mark_consumed-none digest state cookie now later rows h l in
    ground (arith, none_left)
