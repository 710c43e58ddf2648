-- ===== src/Ledger/Writes.antt =====
-- What the calls on deliveries write (server/repositories/agent-task-runs.ts): at most one row, and as
-- the schema asks.
use velarix_bot.Prelude.{
  ◌≤◌, String, Bool, true, false, some, if◌then◌else◌, ◌≡◌, refl, arith, ◌⊎◌, inl, inr,
}
use velarix_bot.Prelude.Dict.{Dict, get, set}
use velarix_bot.Ledger.Rows.{DeliveryState, Delivery, pending, claimed, delivered, failed, rejected}
use velarix_bot.Ledger.Deliveries.{is_claimed, is_failed}
use velarix_bot.Ledger.Schema.{Accepted, identity_of, legal_transition, is_terminal, row_ok}

-- One row that is there is updated.
pub record Put (rows rows' : Dict Delivery) : Type 0 where
  pub id : String
  pub old : Delivery
  pub new : Delivery
  pub stored : get id rows ≡ some old
  pub accepted : Accepted old new
  pub keeps_ok : row_ok old ≡ true → row_ok new ≡ true
  pub result : rows' ≡ set id new rows

abbrev pub Writes : Dict Delivery → Dict Delivery → Type 0
Writes rows rows' = (rows' ≡ rows) ⊎ Put rows rows'

pub put_if :
    (b : Bool) (id : String) (old new : Delivery) (rows : Dict Delivery)
    → get id rows ≡ some old
    → (b ≡ true → Accepted old new)
    → (b ≡ true → row_ok old ≡ true → row_ok new ≡ true)
    → Writes rows (if b then set id new rows else rows)
put_if false id old new rows e acc ok = inl refl
put_if true id old new rows e acc ok = inr (record {
  id = id;
  old = old;
  new = new;
  stored = e;
  accepted = acc refl;
  keeps_ok = ok refl;
  result = refl;
})

pub legal-claimed :
    (old new : DeliveryState) → is_claimed old ≡ true → legal_transition old new ≡ true
legal-claimed claimed new h = refl
legal-claimed pending new h = absurd (ground arith)
legal-claimed delivered new h = absurd (ground arith)
legal-claimed failed new h = absurd (ground arith)
legal-claimed rejected new h = absurd (ground arith)

pub legal-failed :
    (old : DeliveryState) → is_failed old ≡ true → legal_transition old pending ≡ true
legal-failed old h = ground arith

pub claimed-open : (s : DeliveryState) → is_claimed s ≡ true → is_terminal s ≡ false
claimed-open s h = ground arith

pub failed-open : (s : DeliveryState) → is_failed s ≡ true → is_terminal s ≡ false
failed-open s h = ground arith

-- A row whose receipt is not final may change its code and its time of delivery.
pub open_update :
    (old new : Delivery)
    → is_terminal old.state ≡ false
    → legal_transition old.state new.state ≡ true
    → identity_of new ≡ identity_of old
    → old.updated_at ≤ new.updated_at
    → Accepted old new
open_update old new h legal same le = record {
  transition = legal;
  identity = same;
  receipt_code = λ t. absurd (ground arith);
  receipt_time = λ t. absurd (ground arith);
  time = le;
}
