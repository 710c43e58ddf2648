-- ===== src/Unattended/Laws.antt =====
-- When a bot counts as unattended (server/unattended.ts).
use velarix_bot.Prelude.{
  ℕ, ◌+◌, ◌-◌, ◌≤◌, String, Bool, true, false, not, List, [], ◌∷◌, none, some, arith, ◌≡◌, ◌⊎◌, inl,
  inr, ◌&&◌, truthy, trim, if◌then◌else◌, ◌===◌, ===_iff, ===_refl, ltb,
}
use velarix_bot.Prelude.Dict.{Dict, get, set, get-set, get-delete}
use velarix_bot.Unattended.{unattended_ttl_ms, mark_unattended, is_unattended}

-- A marked bot stays unattended under any number of reads, as long as at each read it is busy or no
-- more than the limit has passed since the read before.
abbrev pub InTime : (String → Bool) → String → ℕ → List ℕ → Type 0
InTime busy id last [] = Unit
InTime busy id last (at ∷ reads) =
    ((busy id ≡ true) ⊎ (at ≤ last + unattended_ttl_ms)) × InTime busy id at reads

unfoldable pub read_at : (String → Bool) → String → List ℕ → Dict ℕ → Dict ℕ
read_at busy id [] marks = marks
read_at busy id (at ∷ reads) marks = read_at busy id reads (is_unattended busy (some id) at marks).0

read_fresh :
    (busy : String → Bool) (id : String) (last at : ℕ) (marks : Dict ℕ)
    → truthy id ≡ true
    → get id marks ≡ some last
    → (busy id ≡ true) ⊎ (at ≤ last + unattended_ttl_ms)
    → is_unattended busy (some id) at marks ≡ (set id at marks, true)
unfolding is_unattended
read_fresh busy id last at marks t m (inl b) = rw (t, m, is_unattended) (rw b (ground arith))
read_fresh busy id last at marks t m (inr h) = rw (t, m, is_unattended) (ground arith)

reads_keep :
    (busy : String → Bool) (id : String) (last : ℕ) (reads : List ℕ) (marks : Dict ℕ)
    → truthy id ≡ true
    → get id marks ≡ some last
    → InTime busy id last reads
    → (t : ℕ) × (get id (read_at busy id reads marks) ≡ some t)
unfolding read_at
reads_keep busy id last [] marks t m h = (last, m)
reads_keep busy id last (at ∷ reads) marks t m (now, h) =
    rw (read_fresh busy id last at marks t m now, read_at)
      (reads_keep busy id at reads (set id at marks) t
        (rw (get-set id id at marks) (rw (===_refl id))) h)

-- After a bot is marked, reads that come in time keep it unattended: a turn that asks at least once
-- in the limit, or is busy, never loses the mark.
mark_unattended-reads :
    (busy : String → Bool) (bot_id : String) (at : ℕ) (reads : List ℕ) (marks : Dict ℕ)
    → truthy (trim bot_id) ≡ true
    → InTime busy (trim bot_id) at reads
    → (t : ℕ) × (get
          (trim bot_id)
          (read_at busy (trim bot_id) reads (mark_unattended bot_id at marks))
        ≡ some t)
unfolding mark_unattended
mark_unattended-reads busy bot_id at reads marks t h =
    reads_keep busy (trim bot_id) at reads _ t
      (rw (t, mark_unattended)
        (rw (get-set (trim bot_id) (trim bot_id) at marks) (rw (===_refl (trim bot_id)))))
      h

-- A read says unattended exactly when the bot has a mark, and is busy or was marked or read no more
-- than the limit ago; then the mark is refreshed, else there is no mark left. Other bots keep theirs.
pub is_unattended_iff :
    (busy : String → Bool) (id other : String) (at : ℕ) (marks : Dict ℕ)
    → truthy id ≡ true
    → let (marks', unattended) = is_unattended busy (some id) at marks in
      (unattended ≡ elim (get id marks) [
        | none ↦ false
        | some marked ↦ not (ltb unattended_ttl_ms (at - marked) && not (busy id))
      ])
      × (get id marks' ≡ (if unattended then some at else none))
      × (get other marks'
          ≡ (if id === other then (if unattended then some at else none) else get other marks))
unfolding is_unattended
is_unattended_iff busy id other at marks t = grind (arith, get-set, get-delete, ===_iff, ===_refl)
