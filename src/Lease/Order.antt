-- ===== src/Lease/Order.antt =====
-- The order in which waiters get a lease (server/computer/leases.ts).
use velarix_bot.Prelude.{
  ℕ, zero, suc, String, List, [], ◌∷◌, ◌++◌, map, none, some, ◌≡◌, sym, ◌∙◌, ===_refl, length,
  append_assoc, append-nil, ap,
}
use velarix_bot.Prelude.Dict.{get, set, delete, get-set, get-delete}
use velarix_bot.Lease.{LeaseOwner, LeaseState, Waiter, resolved, Broker, release, holder}

-- Whoever holds the key releases it, `n` times in turn.
pub holders_release : ℕ → Broker → String → Broker
holders_release zero b key = b
holders_release (suc n) b key = elim (holder b key) [
  | none ↦ b
  | some h ↦ holders_release n (release b key h.id) key
]

-- The holders that release in those turns.
pub holders_in_turn : ℕ → Broker → String → List LeaseOwner
holders_in_turn zero b key = []
holders_in_turn (suc n) b key = elim (holder b key) [
  | none ↦ []
  | some h ↦ h ∷ holders_in_turn n (release b key h.id) key
]

holder_lem :
    (b : Broker) (key : String) (s : LeaseState)
    → get key b.leases ≡ some s
    → holder b key ≡ some s.holder
unfolding holder
holder_lem b key s e = rw (e, holder)

release_next :
    (b : Broker) (key : String) (h : LeaseOwner) (w : Waiter) (ws : List Waiter)
    → get key b.leases ≡ some (record { holder = h; queue = w ∷ ws })
    → release b key h.id ≡ record b {
      leases = set key (record { holder = w.owner; queue = ws }) b.leases;
      effects = b.effects ++ resolved w.ticket ∷ [];
    }
unfolding release
release_next b key h w ws e = rw (e, release) (rw (===_refl h.id))

release_last :
    (b : Broker) (key : String) (h : LeaseOwner)
    → get key b.leases ≡ some (record { holder = h; queue = [] })
    → release b key h.id ≡ record b { leases = delete key b.leases }
unfolding release
release_last b key h e = rw (e, release) (rw (===_refl h.id))

holders_release_step :
    (n : ℕ) (b : Broker) (key : String) (s : LeaseState)
    → get key b.leases ≡ some s
    → holders_release (suc n) b key ≡ holders_release n (release b key s.holder.id) key
unfolding holders_release
holders_release_step n b key s e = rw (holder_lem b key s e, holders_release)

holders_in_turn_step :
    (n : ℕ) (b : Broker) (key : String) (s : LeaseState)
    → get key b.leases ≡ some s
    → holders_in_turn (suc n) b key ≡ s.holder ∷ holders_in_turn n (release b key s.holder.id) key
unfolding holders_in_turn
holders_in_turn_step n b key s e = rw (holder_lem b key s e, holders_in_turn)

free_after_delete :
    (b : Broker) (key : String) → holder (record b { leases = delete key b.leases }) key ≡ none
unfolding holder
free_after_delete b key = rw (get-delete key key b.leases, holder) (rw (===_refl key))

get-set_self : (b : Broker) (key : String) (s : LeaseState) → get key (set key s b.leases) ≡ some s
get-set_self b key s = rw (get-set key key s b.leases) (rw (===_refl key))

-- When each holder in turn releases the key, the holder and then the waiters in the order of their
-- arrival are its holders; their promises are resolved in that order, nothing else is settled, and the
-- key is free at the end.
pub holders_release_fifo :
    (b : Broker) (key : String) (h : LeaseOwner) (ws : List Waiter)
    → get key b.leases ≡ some (record { holder = h; queue = ws })
    → let b' = holders_release (suc (length ws)) b key in
      (holders_in_turn (suc (length ws)) b key ≡ h ∷ map (λ w. w.owner) ws)
      × (b'.effects ≡ b.effects ++ map (λ w. resolved w.ticket) ws)
      × (holder b' key ≡ none)
unfolding holders_release holders_in_turn
holders_release_fifo b key h [] e =
    rw (holders_release_step 0 b key _ e, release_last b key h e)
      (holders_in_turn_step 0 b key _ e, sym (append-nil _), free_after_delete b key)
holders_release_fifo b key h (w ∷ ws) e =
    rw (holders_release_step (suc (length ws)) b key _ e, release_next b key h w ws e)
      (let (turns, order, free) =
          holders_release_fifo handed key w.owner ws (get-set_self b key _) in
        (
          holders_in_turn_step (suc (length ws)) b key _ e
              ∙ ap (λ hs. h ∷ hs) (rw (release_next b key h w ws e) turns),
          order ∙ append_assoc b.effects (resolved w.ticket ∷ []) (map (λ v. resolved v.ticket) ws),
          free,
        ))
  where
    handed : Broker
    handed = record b {
      leases = set key (record { holder = w.owner; queue = ws }) b.leases;
      effects = b.effects ++ resolved w.ticket ∷ [];
    }
