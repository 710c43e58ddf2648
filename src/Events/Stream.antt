-- ===== src/Events/Stream.antt =====
-- The sequence numbers of a stream (server/repositories/event-log.ts): one, two, three, without a gap.
use Prim.Native.Nat.{zero, suc}
use velarix_bot.Prelude.{
  ℕ, ◌+◌, ◌≤◌, String, true, false, not, List, [], ◌∷◌, ◌++◌, is_some, ltb, ◌===◌, if◌then◌else◌,
  keep, length, ◌≡◌, refl, sym, ap, subst, ◌∙◌, arith, All, inl, inr, Bool-cases, Option-cases,
  ===_iff, All-append, All-keep,
}
use velarix_bot.Events.Log.{
  Payload, EventRow, of_stream, max_sequence, min_sequence, latest_sequence, new_row,
  append_to_stream, sort_by_sequence, insert_by_sequence, entries, replay_after,
  delete_thread_events,
}

-- The rows are numbered from k on, and their text parses.
abbrev pub Counted : ℕ → List EventRow → Type 0
Counted k [] = Unit
Counted k (r ∷ rs) = (r.sequence ≡ k) × (is_some r.stored ≡ true) × Counted (suc k) rs

Counted-append :
    (k : ℕ) (xs : List EventRow) (y : EventRow)
    → Counted k xs
    → y.sequence ≡ k + length xs
    → is_some y.stored ≡ true
    → Counted k (xs ++ y ∷ [])
Counted-append k [] y h e s = (e ∙ omega arith, s, tt)
Counted-append k (x ∷ xs) y h e s = (h.0, h.1, Counted-append (suc k) xs y h.2 (e ∙ omega arith) s)

Counted-max :
    (k : ℕ) (x : EventRow) (xs : List EventRow)
    → Counted k (x ∷ xs)
    → max_sequence (x ∷ xs) + 1 ≡ k + length (x ∷ xs)
unfolding max_sequence
Counted-max k x [] h = ground arith
Counted-max k x (y ∷ ys) h = ground (arith, Counted-max (suc k) y ys h.2)

pub latest-length : (xs : List EventRow) → Counted 1 xs → max_sequence xs ≡ length xs
unfolding max_sequence
latest-length [] h = refl
latest-length (x ∷ xs) h = omega (arith, Counted-max 1 x xs h)

pub Counted-min :
    (k : ℕ) (x : EventRow) (xs : List EventRow) → Counted k (x ∷ xs) → min_sequence (x ∷ xs) ≡ k
unfolding min_sequence
Counted-min k x [] h = h.0
Counted-min k x (y ∷ ys) h = ground (arith, Counted-min (suc k) y ys h.2)

abbrev pub drop {ℓ} : {A : Type ℓ} → ℕ → List A → List A
drop zero xs = xs
drop (suc n) [] = []
drop (suc n) (x ∷ xs) = drop n xs

keep-above :
    (k n : ℕ) (xs : List EventRow)
    → Counted (suc k) xs
    → n ≤ k
    → keep (λ r. ltb n r.sequence) xs ≡ xs
keep-above k n [] h le = refl
keep-above k n (x ∷ xs) h le = ground (arith, keep-above (suc k) n xs h.2)

keep-drop :
    (k n : ℕ) (xs : List EventRow)
    → Counted (suc k) xs
    → keep (λ r. ltb (k + n) r.sequence) xs ≡ drop n xs
keep-drop k zero xs h = keep-above k (k + 0) xs h (omega arith)
keep-drop k (suc n) [] h = refl
keep-drop k (suc n) (x ∷ xs) h =
    let e : k + suc n ≡ suc k + n = omega arith in
    let rest : keep (λ r. ltb (k + suc n) r.sequence) xs ≡ drop n xs =
      subst (λ m. keep (λ r. ltb m r.sequence) xs ≡ drop n xs) (sym e)
        (keep-drop (suc k) n xs h.2) in
    let low : ltb (k + suc n) x.sequence ≡ false = ground arith in rw low rest

Counted-drop : (k n : ℕ) (xs : List EventRow) → Counted k xs → Counted (k + n) (drop n xs)
Counted-drop k zero xs h = let e : k ≡ k + 0 = omega arith in subst (λ m. Counted m xs) e h
Counted-drop k (suc n) [] h = tt
Counted-drop k (suc n) (x ∷ xs) h =
    let e : suc k + n ≡ k + suc n = omega arith in
    subst (λ m. Counted m (drop n xs)) e (Counted-drop (suc k) n xs h.2)

sort-Counted : (k : ℕ) (xs : List EventRow) → Counted k xs → sort_by_sequence xs ≡ xs
unfolding sort_by_sequence insert_by_sequence
sort-Counted k [] h = refl
sort-Counted k (x ∷ []) h = refl
sort-Counted k (x ∷ y ∷ ys) h =
    ap (insert_by_sequence x) (sort-Counted (suc k) (y ∷ ys) h.2) ∙ ground arith

entries-drop :
    (k n : ℕ) (xs : List EventRow) → Counted k xs → entries (drop n xs) ≡ drop n (entries xs)
unfolding entries
entries-drop k zero xs h = refl
entries-drop k (suc n) [] h = refl
entries-drop k (suc n) (x ∷ xs) h = elim (Option-cases x.stored) [
  | inl e ↦ absurd (ground arith)
  | inr (p, e) ↦ rw (e, entries) (entries-drop (suc k) n xs h.2)
]

-- Replay from n: the entries of the stream without the first n.
pub replay_after-drop :
    (s : String) (n : ℕ) (log : List EventRow)
    → Counted 1 (of_stream s log)
    → replay_after s n log ≡ drop n (entries (of_stream s log))
unfolding replay_after
replay_after-drop s n log h =
    let rows = of_stream s log in
    let kept : keep (λ r. ltb n r.sequence) rows ≡ drop n rows =
      let e : 0 + n ≡ n = omega arith in
      subst (λ m. keep (λ r. ltb m r.sequence) rows ≡ drop n rows) e (keep-drop 0 n rows h) in
    ap (λ x. entries (sort_by_sequence x)) kept
    ∙ ap entries (sort-Counted (1 + n) (drop n rows) (Counted-drop 1 n rows h))
    ∙ entries-drop 1 n rows h

-- The invariant of the log: every stream is numbered, and a row stands under its stream's name.
pub record Numbered (log : List EventRow) : Type 0 where
  pub streams : (s : String) → Counted 1 (of_stream s log)
  pub threads : All (λ r. r.thread_id ≡ r.stream_id) log

pub of_stream-append :
    (s : String) (xs : List EventRow) (y : EventRow)
    → of_stream s (xs ++ y ∷ [])
      ≡ (if y.stream_id === s then of_stream s xs ++ y ∷ [] else of_stream s xs)
unfolding of_stream
of_stream-append s [] y = refl
of_stream-append s (x ∷ xs) y = ground (arith, of_stream-append s xs y)

pub new_row-fields :
    (s name : String) (p : Payload) (log : List EventRow)
    → let r = new_row s name p log in
      (r.stream_id ≡ s)
      × (r.thread_id ≡ s)
      × (is_some r.stored ≡ true)
      × (r.sequence ≡ latest_sequence s log + 1)
unfolding new_row
new_row-fields s name p log = (refl, refl, refl, refl)

append-streams :
    (s name : String) (p : Payload) (log : List EventRow)
    → Numbered log
    → (t : String) → Counted 1 (of_stream t (append_to_stream s name p log))
unfolding append_to_stream latest_sequence new_row
append-streams s name p log h t =
    let r = new_row s name p log in
    let (stream, _, stored, next) = new_row-fields s name p log in
    rw (of_stream-append t log r, stream)
      (elim (Bool-cases (s === t)) [
        | inl q ↦
            let same : s ≡ t = (===_iff s t).0 q in
            rw q (
              Counted-append 1 (of_stream t log) r (h.streams t)
                (next
                  ∙ ap (λ m. m + 1)
                      (latest-length (of_stream s log) (h.streams s)
                        ∙ ap (λ x. length (of_stream x log)) same)
                  ∙ omega arith)
                stored)
        | inr q ↦ rw q (h.streams t)
      ])

pub append-Numbered :
    (s name : String) (p : Payload) (log : List EventRow)
    → Numbered log
    → Numbered (append_to_stream s name p log)
unfolding append_to_stream
append-Numbered s name p log h = record {
  streams = append-streams s name p log h;
  threads =
      let (stream, thread, _, _) = new_row-fields s name p log in
      All-append (λ r. r.thread_id ≡ r.stream_id) log (new_row s name p log ∷ []) h.threads
        (thread ∙ sym stream, tt);
}

pub delete-stream :
    (t s : String) (log : List EventRow)
    → All (λ r. r.thread_id ≡ r.stream_id) log
    → of_stream s (delete_thread_events t log) ≡ (if t === s then [] else of_stream s log)
unfolding of_stream delete_thread_events
delete-stream t s [] h = ground arith
delete-stream t s (r ∷ rs) h =
    let same : r.thread_id ≡ r.stream_id = h.0 in
    ground (
      arith,
      delete-stream t s rs h.1,
      same,
      ===_iff r.thread_id t,
      ===_iff r.stream_id s,
      ===_iff t s,
      ===_iff r.stream_id t,
    )

pub delete-Numbered :
    (t : String) (log : List EventRow) → Numbered log → Numbered (delete_thread_events t log)
unfolding delete_thread_events
delete-Numbered t log h = record {
  streams = λ s.
      rw (delete-stream t s log h.threads)
        (elim (Bool-cases (t === s)) [ inl q ↦ rw q tt | inr q ↦ rw q (h.streams s) ]);
  threads = All-keep (λ r. r.thread_id ≡ r.stream_id) (λ r. not (r.thread_id === t)) log h.threads;
}
