-- ===== src/Events/Resume.antt =====
-- A client that comes back misses no frame of the stream and gets none twice
-- (server/services/events.ts, server/repositories/event-log.ts).
use Prim.Native.Nat.{zero, suc}
use velarix_bot.Prelude.{
  ℕ, ◌+◌, ◌≤◌, String, Bool, true, false, not, List, [], ◌∷◌, ◌++◌, Option, some, ◌===◌, ◌||◌,
  get_or_else, length, length-append, ◌≡◌, refl, sym, ap, subst, ◌∙◌, arith, All, inl, inr,
  Bool-cases, Option-cases, ===_refl,
}
use velarix_bot.Prelude.Dict.{Dict, get, get-set, get-delete}
use velarix_bot.Events.Log.{
  Payload, Stamped, EventRow, StreamEntry, ui_stream_id, of_stream, max_sequence, min_sequence,
  entries, new_row, append_to_stream, latest_sequence, oldest_sequence,
}
use velarix_bot.Events.Hub.{
  Frame, sequenced, plain, hello, Client, Hub, Call, broadcasts, attaches, closes, breaks,
  logs_event, deletes_thread, step, run, broadcast, attach, deliver, add_frame, entry_of,
  broken_client, is_ephemeral_frame, requested_id, is_resumed, missed, frames,
}
use velarix_bot.Events.Stream.{
  Numbered, Counted, Counted-min, drop, replay_after-drop, latest-length, of_stream-append,
  new_row-fields, delete-stream,
}
use velarix_bot.Events.Numbering.{step-Numbered}

-- The frames with an id that a client has got.
abbrev pub sequenced_entries : List Frame → List StreamEntry
sequenced_entries [] = []
sequenced_entries (sequenced e ∷ fs) = e ∷ sequenced_entries fs
sequenced_entries (plain p ∷ fs) = sequenced_entries fs
sequenced_entries (hello n b ∷ fs) = sequenced_entries fs

-- The stream that the hub's clients follow.
pub ui_entries : Hub → List StreamEntry
ui_entries h = entries (of_stream ui_stream_id h.log)

-- The calls that are not about the client, and do not write to the stream behind the hub's back.
abbrev pub Follows : String → Call → Type 0
Follows id (broadcasts log_ok payload) = Unit
Follows id (attaches other header query) = (other === id) ≡ false
Follows id (closes other) = (other === id) ≡ false
Follows id (breaks other) = (other === id) ≡ false
Follows id (logs_event thread_id name payload) = (thread_id === ui_stream_id) ≡ false
Follows id (deletes_thread thread_id) = (thread_id === ui_stream_id) ≡ false

drop-append :
    {A : Type 0} (n : ℕ) (xs : List A) (y : A)
    → n ≤ length xs
    → drop n (xs ++ y ∷ []) ≡ drop n xs ++ y ∷ []
drop-append zero xs y h = refl
drop-append (suc n) [] y h = absurd (omega arith)
drop-append (suc n) (x ∷ xs) y h = drop-append n xs y (omega arith)

sequenced-append :
    (fs : List Frame) (e : StreamEntry)
    → sequenced_entries (fs ++ sequenced e ∷ []) ≡ sequenced_entries fs ++ e ∷ []
sequenced-append [] e = refl
sequenced-append (sequenced d ∷ fs) e = ap (λ x. d ∷ x) (sequenced-append fs e)
sequenced-append (plain p ∷ fs) e = sequenced-append fs e
sequenced-append (hello n b ∷ fs) e = sequenced-append fs e

plain-append :
    (fs : List Frame) (p : Payload) → sequenced_entries (fs ++ plain p ∷ []) ≡ sequenced_entries fs
plain-append [] p = refl
plain-append (sequenced d ∷ fs) p = ap (λ x. d ∷ x) (plain-append fs p)
plain-append (plain q ∷ fs) p = plain-append fs p
plain-append (hello n b ∷ fs) p = plain-append fs p

sequenced-frames : (es : List StreamEntry) → sequenced_entries (frames es) ≡ es
unfolding frames
sequenced-frames [] = refl
sequenced-frames (e ∷ es) = ap (λ x. e ∷ x) (sequenced-frames es)

get-deliver :
    (f : Frame) (id : String) (m : Dict Client) (c : Client)
    → get id m ≡ some c
    → c.broken ≡ false
    → get id (deliver f m) ≡ some (add_frame f c)
unfolding get deliver
get-deliver f id [] c e b = absurd (ground arith)
get-deliver f id ((k, d) ∷ m) c e b = elim (Bool-cases (k === id)) [
  | inl q ↦
      let same : d ≡ c = ground arith in
      let open_client : d.broken ≡ false = subst (λ x. x.broken ≡ false) (sym same) b in
      ground (arith, q, open_client, same)
  | inr q ↦
      let rest : get id (deliver f m) ≡ some (add_frame f c) = get-deliver f id m c (rw q at e) b in
      elim (Bool-cases d.broken) [ inl z ↦ rw z rest | inr z ↦ rw (z, q) rest ]
]

entries-append :
    (xs : List EventRow) (y : EventRow) (p : Stamped)
    → y.stored ≡ some p
    → entries (xs ++ y ∷ []) ≡ entries xs ++ record { sequence = y.sequence; payload = p } ∷ []
unfolding entries
entries-append [] y p e = rw (e, entries) refl
entries-append (x ∷ xs) y p e = elim (Option-cases x.stored) [
  | inl z ↦ rw (z, entries) (entries-append xs y p e)
  | inr (q, z) ↦
      rw (z, entries)
        (ap (λ t. record { sequence = x.sequence; payload = q } ∷ t) (entries-append xs y p e))
]

entries-length : (k : ℕ) (xs : List EventRow) → Counted k xs → length (entries xs) ≡ length xs
unfolding entries
entries-length k [] h = refl
entries-length k (x ∷ xs) h = elim (Option-cases x.stored) [
  | inl e ↦ absurd (ground arith)
  | inr (p, e) ↦ rw (e, entries) (ap suc (entries-length (suc k) xs h.2))
]

-- The client is there and has got the stream from n on.
record Following (n : ℕ) (id : String) (h : Hub) : Type 0 where
  client : Client
  found : get id h.clients ≡ some client
  open_client : client.broken ≡ false
  got : sequenced_entries client.received ≡ drop n (ui_entries h)
  known : n ≤ length (ui_entries h)

resumes_empty :
    (n : ℕ) → n ≤ max_sequence [] → is_resumed (some n) (max_sequence []) (min_sequence []) ≡ true
unfolding is_resumed max_sequence
resumes_empty n le = ground arith

resumes_some :
    (n : ℕ) (x : EventRow) (xs : List EventRow)
    → Counted 1 (x ∷ xs)
    → n ≤ max_sequence (x ∷ xs)
    → is_resumed (some n) (max_sequence (x ∷ xs)) (min_sequence (x ∷ xs)) ≡ true
unfolding is_resumed
resumes_some n x xs h le = ground (arith, Counted-min 1 x xs h)

resumes :
    (n : ℕ) (xs : List EventRow)
    → Counted 1 xs
    → n ≤ max_sequence xs
    → is_resumed (some n) (max_sequence xs) (min_sequence xs) ≡ true
resumes n [] h le = resumes_empty n le
resumes n (x ∷ xs) h le = resumes_some n x xs h le

missed-drop :
    (h : Hub) (n : ℕ)
    → Numbered h.log
    → n ≤ latest_sequence ui_stream_id h.log
    → missed (some n) h.log ≡ frames (drop n (ui_entries h))
unfolding missed ui_entries latest_sequence oldest_sequence
missed-drop h n num le =
    let rows = of_stream ui_stream_id h.log in
    rw (resumes n rows (num.streams ui_stream_id) le, missed)
      (ap frames (replay_after-drop ui_stream_id n h.log (num.streams ui_stream_id)))

known_latest :
    (h : Hub) (n : ℕ)
    → Numbered h.log
    → n ≤ latest_sequence ui_stream_id h.log
    → n ≤ length (ui_entries h)
unfolding ui_entries latest_sequence
known_latest h n num le =
    let rows = of_stream ui_stream_id h.log in
    let e : length (entries rows) ≡ length rows =
      entries-length 1 rows (num.streams ui_stream_id) in
    let l : max_sequence rows ≡ length rows = latest-length rows (num.streams ui_stream_id) in
    omega (arith, e, l, le)

-- The client that has just come back.
abbrev returned : Option String → Option String → Hub → Client
returned header query h = record {
  broken = false;
  received =
      hello (latest_sequence ui_stream_id h.log) (
        is_resumed (requested_id header query) (latest_sequence ui_stream_id h.log)
          (oldest_sequence ui_stream_id h.log))
      ∷ missed (requested_id header query) h.log;
}

attach-Following :
    (id : String) (header query : Option String) (h : Hub) (n : ℕ)
    → Numbered h.log
    → requested_id header query ≡ some n
    → n ≤ latest_sequence ui_stream_id h.log
    → Following n id (attach id header query h)
unfolding attach ui_entries
attach-Following id header query h n num e le = record {
  client = returned header query h;
  found = grind (arith, get-set, ===_refl);
  open_client = refl;
  got =
      rw e
        (ap sequenced_entries (missed-drop h n num le) ∙ sequenced-frames (drop n (ui_entries h)));
  known = known_latest h n num le;
}

-- A frame without an id does not move the client on.
plain-Following :
    (n : ℕ) (id : String) (payload : Payload) (h : Hub)
    → Following n id h
    → Following n id (record h { clients = deliver (plain payload) h.clients })
unfolding ui_entries
plain-Following n id payload h f = record {
  client = add_frame (plain payload) f.client;
  found = get-deliver (plain payload) id h.clients f.client f.found f.open_client;
  open_client = f.open_client;
  got = plain-append f.client.received payload ∙ f.got;
  known = f.known;
}

stamp :
    (name : String) (payload : Payload) (log : List EventRow)
    → (p : Stamped) × ((new_row ui_stream_id name payload log).stored ≡ some p)
unfolding new_row
stamp name payload log = (_, refl)

logged :
    (name : String) (payload : Payload) (log : List EventRow)
    → let r = new_row ui_stream_id name payload log in
      (e : StreamEntry) × (entry_of r payload ≡ sequenced e)
      × (entries (of_stream ui_stream_id (append_to_stream ui_stream_id name payload log))
          ≡ entries (of_stream ui_stream_id log) ++ e ∷ [])
unfolding append_to_stream
logged name payload log =
    let r = new_row ui_stream_id name payload log in
    let (p, stored) = stamp name payload log in
    let (stream, _, _, _) = new_row-fields ui_stream_id name payload log in
    let ours : (r.stream_id === ui_stream_id) ≡ true = rw stream refl in
    (
      record { sequence = r.sequence; payload = p },
      rw stored refl,
      rw (of_stream-append ui_stream_id log r, ours)
          (entries-append (of_stream ui_stream_id log) r p stored),
    )

sequenced-Following :
    (n : ℕ) (id name : String) (payload : Payload) (h : Hub)
    → Following n id h
    → Following n id (record h {
      log = append_to_stream ui_stream_id name payload h.log;
      clients = deliver (entry_of (new_row ui_stream_id name payload h.log) payload) h.clients;
    })
unfolding ui_entries
sequenced-Following n id name payload h f =
    let (e, frame, next) = logged name payload h.log in
    let before = entries (of_stream ui_stream_id h.log) in
    record {
      client = add_frame (sequenced e) f.client;
      found = rw frame (get-deliver (sequenced e) id h.clients f.client f.found f.open_client);
      open_client = f.open_client;
      got = rw next (
          sequenced-append f.client.received e
          ∙ ap (λ x. x ++ e ∷ []) f.got
          ∙ sym (drop-append n before e f.known));
      known = rw next (
          let l : length (before ++ e ∷ []) ≡ length before + 1 = length-append before (e ∷ []) in
          let k : n ≤ length before = f.known in omega (arith, l, k));
    }

broadcast-Following :
    (n : ℕ) (id : String) (log_ok : Bool) (payload : Payload) (h : Hub)
    → Following n id h
    → Following n id (broadcast log_ok payload h)
unfolding broadcast
broadcast-Following n id log_ok payload h f =
    elim (Bool-cases (is_ephemeral_frame payload || not log_ok)) [
      | inl q ↦ rw (q, broadcast) (plain-Following n id payload h f)
      | inr q ↦
          rw (q, broadcast)
            (sequenced-Following n id (get_or_else payload.kind "unknown") payload h f)
    ]

-- Another client, and another stream.
others-Following :
    (n : ℕ) (id : String) (h h' : Hub)
    → Following n id h
    → get id h'.clients ≡ get id h.clients
    → of_stream ui_stream_id h'.log ≡ of_stream ui_stream_id h.log
    → Following n id h'
unfolding ui_entries
others-Following n id h h' f c l = record {
  client = f.client;
  found = c ∙ f.found;
  open_client = f.open_client;
  got = f.got ∙ ap (λ x. drop n (entries x)) (sym l);
  known = rw l f.known;
}

other_stream :
    (s name : String) (payload : Payload) (log : List EventRow)
    → (s === ui_stream_id) ≡ false
    → of_stream ui_stream_id (append_to_stream s name payload log) ≡ of_stream ui_stream_id log
unfolding append_to_stream
other_stream s name payload log k =
    let (stream, _, _, _) = new_row-fields s name payload log in
    rw (of_stream-append ui_stream_id log (new_row s name payload log), stream, k) refl

broken-other :
    (other id : String) (m : Dict Client)
    → (other === id) ≡ false
    → get id (broken_client other m) ≡ get id m
broken-other other id m k = grind (arith, get-set)

step-Following :
    (n : ℕ) (id : String) (h : Hub) (c : Call)
    → Numbered h.log
    → Follows id c
    → Following n id h
    → Following n id (step h c)
unfolding step attach
step-Following n id h (broadcasts log_ok payload) num k f =
    broadcast-Following n id log_ok payload h f
step-Following n id h (attaches other header query) num k f =
    others-Following n id h (step h (attaches other header query)) f (grind (arith, get-set)) refl
step-Following n id h (closes other) num k f =
    others-Following n id h (step h (closes other)) f (grind (arith, get-delete)) refl
step-Following n id h (breaks other) num k f =
    others-Following n id h (step h (breaks other)) f (broken-other other id h.clients k) refl
step-Following n id h (logs_event thread_id name payload) num k f =
    others-Following n id h (step h (logs_event thread_id name payload)) f refl
      (other_stream thread_id name payload h.log k)
step-Following n id h (deletes_thread thread_id) num k f =
    others-Following n id h (step h (deletes_thread thread_id)) f refl
      (rw (delete-stream thread_id ui_stream_id h.log num.threads, k) refl)

attach-Numbered :
    (id : String) (header query : Option String) (h : Hub)
    → Numbered h.log
    → Numbered (attach id header query h).log
unfolding attach
attach-Numbered id header query h num = num

run-Following :
    (n : ℕ) (id : String) (h : Hub) (cs : List Call)
    → Numbered h.log
    → All (Follows id) cs
    → Following n id h
    → Following n id (run h cs)
unfolding run
run-Following n id h [] num ks f = f
run-Following n id h (c ∷ cs) num ks f =
    run-Following n id (step h c) cs (step-Numbered h c num) ks.1
      (step-Following n id h c num ks.0 f)

-- A client that comes back with the id n of the last frame it has seen, an id that the stream has
-- reached, gets the frames of the stream from n on, each once and in order, however many frames are
-- sent from then on, and whatever happens to other clients and other streams: the frames with an id
-- that it has got are the stream without its first n entries.
pub resumed_client_misses_nothing :
    (h : Hub) (id : String) (header query : Option String) (n : ℕ) (cs : List Call)
    → Numbered h.log
    → requested_id header query ≡ some n
    → n ≤ latest_sequence ui_stream_id h.log
    → All (Follows id) cs
    → let h' = run (attach id header query h) cs in
      (c : Client) × (get id h'.clients ≡ some c)
      × (sequenced_entries c.received ≡ drop n (ui_entries h'))
resumed_client_misses_nothing h id header query n cs num e le ks =
    let f =
      run-Following n id (attach id header query h) cs (attach-Numbered id header query h num) ks
        (attach-Following id header query h n num e le) in
    (f.client, f.found, f.got)
