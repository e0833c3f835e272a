-- ===== src/Broker/Sending.antt =====
-- What `send_all_messages` sends, and what it does not record.
use tp_so_delibird.Common.{
  true, suc, not, false, keep, inr, ==_iff, ◌⊎◌, inl, Bool-cases, Bool, All, ◌==◌, ◌++◌, Option,
  find?, ℕ, List, refl, arith, ◌≡◌, none, some, ◌≢◌, [], ◌∷◌,
}
use tp_so_delibird.Wire.Bytes.{Bytes}
use tp_so_delibird.Broker.Consolidate.{write_through}
use tp_so_delibird.Broker.Queues.{
  receivers_after, skips, send_loop, with_partition_id, content_frame,
}
use tp_so_delibird.Broker.State.{Receiver, QueueMessage, Partition}
use mathlib.Core.Path.{subst, sym, ◌∙◌, ap}

-- The partition of the message, by its identifier.
abbrev pub partition_of : List Partition → QueueMessage → Option Partition
partition_of ps m = find? (with_partition_id m.message.memory_partition_id) ps

abbrev pub IsHeld : List Partition → QueueMessage → Type 0
IsHeld ps m = (p : Partition) × (partition_of ps m ≡ some p)

-- The frame of the message as the memory stands; nothing for a message without partition.
abbrev pub frame_of : ℕ → Bytes → List Partition → QueueMessage → List Bytes
frame_of code cells ps m = elim (partition_of ps m) [
  | none ↦ []
  | some p ↦ content_frame code cells m p ∷ []
]

abbrev pub frames_of : ℕ → Bytes → List Partition → List QueueMessage → List Bytes
frames_of code cells ps [] = []
frames_of code cells ps (m ∷ ms) = frame_of code cells ps m ++ frames_of code cells ps ms

find_id :
    (n : ℕ) (ps : List Partition) (p : Partition)
    → find? (with_partition_id n) ps ≡ some p
    → p.id ≡ n
find_id n [] p h = absurd (cc)
find_id n (q ∷ ps) p h = elim (Bool-cases (q.id == n)) [
  | inl e ↦ let same : q ≡ p = ground arith in subst (λ x. x.id ≡ n) same ((==_iff q.id n).0 e)
  | inr e ↦ find_id n ps p (ground arith)
]

abbrev touch : ℕ → Partition → Partition
touch t p = record p { lru_timestamp = t }

find_other :
    (n t : ℕ) (p : Partition) (ps : List Partition)
    → n ≢ p.id
    → find? (with_partition_id n) (write_through (touch t p) ps) ≡ find? (with_partition_id n) ps
unfolding write_through
find_other n t p [] h = refl
find_other n t p (q ∷ ps) h = ground (arith, find_other n t p ps h)

find_same :
    (t : ℕ) (p : Partition) (ps : List Partition) (r : Partition)
    → find? (with_partition_id p.id) ps ≡ some r
    → find? (with_partition_id p.id) (write_through (touch t p) ps) ≡ some (touch t p)
unfolding write_through
find_same t p [] r h = absurd (cc)
find_same t p (q ∷ ps) r h = elim (Bool-cases (q.id == p.id)) [
  | inl e ↦ rw e (ground arith)
  | inr e ↦ rw (e, e) (find_same t p ps r (ground arith))
]

-- The message's partition is as before, or is the one that was touched.
touched :
    (t : ℕ) (p : Partition) (ps : List Partition) (x m : QueueMessage)
    → partition_of ps x ≡ some p
    → (partition_of (write_through (touch t p) ps) m ≡ partition_of ps m)
      ⊎ ((partition_of ps m ≡ some p)
          × (partition_of (write_through (touch t p) ps) m ≡ some (touch t p)))
touched t p ps x m h =
    let n = m.message.memory_partition_id in
    let k : p.id ≡ x.message.memory_partition_id = find_id _ ps p h in
    elim (Bool-cases (n == p.id)) [
      | inl e ↦
          let i : n ≡ p.id = (==_iff n p.id).0 e in
          let here : find? (with_partition_id p.id) ps ≡ some p =
            subst (λ y. find? (with_partition_id y) ps ≡ some p) (sym k) h in
          inr (
            subst (λ y. find? (with_partition_id y) ps ≡ some p) (sym i) here,
            subst
                (λ y. find? (with_partition_id y) (write_through (touch t p) ps) ≡ some (touch t p))
                (sym i) (find_same t p ps p here),
          )
      | inr e ↦ inl (find_other n t p ps (λ i. absurd (ground (arith, i))))
    ]

module _ (t : ℕ) (p : Partition) (ps : List Partition) (x : QueueMessage)
    (h : partition_of ps x ≡ some p) where
  IsHeld-touch :
      (ms : List QueueMessage) → All (IsHeld ps) ms → All (IsHeld (write_through (touch t p) ps)) ms
  IsHeld-touch [] a = tt
  IsHeld-touch (m ∷ ms) ((q, e), a) = elim (touched t p ps x m h) [
    | inl same ↦ ((q, same ∙ e), IsHeld-touch ms a)
    | inr both ↦ ((touch t p, both.1), IsHeld-touch ms a)
  ]

  frames_of-touch :
      (code : ℕ) (cells : Bytes) (ms : List QueueMessage)
      → frames_of code cells (write_through (touch t p) ps) ms ≡ frames_of code cells ps ms
  unfolding content_frame
  frames_of-touch code cells [] = refl
  frames_of-touch code cells (m ∷ ms) = elim (touched t p ps x m h) [
    | inl same ↦ rw (frame_of, same, frames_of-touch code cells ms) refl
    | inr both ↦ rw (frame_of, both.0, both.1, frames_of-touch code cells ms) refl
  ]

module _ (code socket old : ℕ) (already : Bool) (raw : Receiver) (cells : Bytes) where
  -- The messages that are not passed over.
  abbrev pub pending : List QueueMessage → List QueueMessage
  pending ms = keep (λ m. not (skips code socket old already raw cells m)) ms

  pub send_loop_skip :
      (time : ℕ → ℕ) (i : ℕ) (m : QueueMessage) (ms : List QueueMessage) (ps : List Partition)
      → skips code socket old already raw cells m ≡ true
      → send_loop code socket old already raw cells time i (m ∷ ms) ps ≡ (
          let rest = send_loop code socket old already raw cells time (suc i) ms ps in
          record rest { messages = m ∷ rest.messages })
  unfolding send_loop
  send_loop_skip time i m ms ps k = rw (send_loop, k) refl

  pub send_loop_send :
      (time : ℕ → ℕ) (i : ℕ) (m : QueueMessage) (ms : List QueueMessage) (ps : List Partition)
      (p : Partition)
      → skips code socket old already raw cells m ≡ false
      → partition_of ps m ≡ some p
      → send_loop code socket old already raw cells time i (m ∷ ms) ps ≡ (
          let rest =
            send_loop code socket old already raw cells time
              (suc i)
              ms
              (write_through (touch (time i) p) ps) in
          record rest {
            frames = content_frame code cells m p ∷ rest.frames;
            messages =
                record m {
                  receivers = receivers_after code socket old already raw cells m.receivers;
                }
                ∷ rest.messages;
          })
  unfolding send_loop
  send_loop_send time i m ms ps p k e = rw (send_loop, k, e) refl

  -- If every message of the queue has its partition in memory, the loop of `send_all_messages`
  -- gives back the mutex and sends the content of each message that it does not pass over, in the
  -- order of the queue and as the memory stood before the loop.
  pub send_loop-frames :
      (time : ℕ → ℕ) (i : ℕ) (ms : List QueueMessage) (ps : List Partition)
      → All (IsHeld ps) ms
      → let s = send_loop code socket old already raw cells time i ms ps in
        (s.frames ≡ frames_of code cells ps (pending ms)) × (s.locked ≡ false)
  unfolding send_loop
  send_loop-frames time i [] ps a = (refl, refl)
  send_loop-frames time i (m ∷ ms) ps ((p, e), a) =
      elim (Bool-cases (skips code socket old already raw cells m)) [
        | inl k ↦ rw (send_loop_skip time i m ms ps k, k) (send_loop-frames time (suc i) ms ps a)
        | inr k ↦
            let later = write_through (touch (time i) p) ps in
            let (f, l) =
              send_loop-frames time (suc i) ms later (IsHeld-touch (time i) p ps m e ms a) in
            rw (send_loop_send time i m ms ps p k e, k, frame_of, e)
              (
                ap (◌∷◌ (content_frame code cells m p))
                    (f ∙ frames_of-touch (time i) p ps m e code cells (pending ms)),
                l,
              )
      ]
