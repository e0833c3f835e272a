-- ===== src/Broker/Acknowledgements.antt =====
-- What an acknowledgement changes: the first message with the id that has a receiver with the
-- subscriptor's socket, and in it the first such receiver.
use tp_so_delibird.Common.{
  ◌⊎◌, find?, ◌++◌, true, inr, inl, false, All, ◌==◌, Option, Bool-cases, List, ℕ, refl, arith, ◌≡◌,
  none, some, [], ◌∷◌,
}
use tp_so_delibird.Wire.Bytes.{Bytes}
use tp_so_delibird.Broker.Queues.{
  has_id, process_message_ack, already_received, ack_subscriptors, ack_receivers, ack_messages,
}
use tp_so_delibird.Broker.State.{Subscriptor, Receiver, Queue, QueueMessage, Commons}
use mathlib.Core.Path.{sym, subst, ◌∙◌, ap}

abbrev pub NotTo : ℕ → List Receiver → Type 0
NotTo socket rs = All (λ r. (r.receiver_socket == socket) ≡ false) rs

pub data Marked (socket : ℕ) (rs : List Receiver) (o : Option (List Receiver)) : Type 0 where
  absent : NotTo socket rs → o ≡ none → Marked socket rs o
  marked :
      (before : List Receiver) (r : Receiver) (after : List Receiver)
      → rs ≡ before ++ (r ∷ after)
      → NotTo socket before
      → (r.receiver_socket == socket) ≡ true
      → o ≡ some (before ++ (record r { received = 1 } ∷ after))
      → Marked socket rs o

-- The receivers are marked at the first one with the socket, and nowhere else.
pub ack_receivers-Marked :
    (socket : ℕ) (rs : List Receiver) → Marked socket rs (ack_receivers socket rs)
unfolding ack_receivers
ack_receivers-Marked socket [] = absent tt refl
ack_receivers-Marked socket (r ∷ rs) = elim (Bool-cases (r.receiver_socket == socket)) [
  | inl e ↦ marked [] r rs refl tt e (rw e refl)
  | inr e ↦ elim (ack_receivers-Marked socket rs) [
    | absent a n ↦ absent (e, a) (rw (e, n) refl)
    | marked before x after split a h n ↦
        marked (r ∷ before) x after (ap (◌∷◌ r) split) (e, a) h (rw (e, n) refl)
  ]
]

-- The message is another one, or was not sent over the socket.
abbrev pub Untouched : ℕ → ℕ → QueueMessage → Type 0
Untouched socket n m = ((m.message.id == n) ≡ false) ⊎ NotTo socket m.receivers

pub data Acked (socket n : ℕ) (ms : List QueueMessage) (o : Option (List QueueMessage))
    : Type 0 where
  ignored : All (Untouched socket n) ms → o ≡ none → Acked socket n ms o
  acked :
      (before : List QueueMessage) (m : QueueMessage) (after : List QueueMessage)
      (earlier : List Receiver) (r : Receiver) (others : List Receiver)
      → ms ≡ before ++ (m ∷ after)
      → All (Untouched socket n) before
      → (m.message.id == n) ≡ true
      → m.receivers ≡ earlier ++ (r ∷ others)
      → NotTo socket earlier
      → (r.receiver_socket == socket) ≡ true
      → o
        ≡ some (
            before
            ++ (record m { receivers = earlier ++ (record r { received = 1 } ∷ others) } ∷ after))
      → Acked socket n ms o

later_Acked :
    (socket n : ℕ) (m : QueueMessage) (ms : List QueueMessage)
    → Untouched socket n m
    → Acked socket n ms (ack_messages socket n ms)
    → ack_messages socket n (m ∷ ms)
      ≡ elim (ack_messages socket n ms) as (λ _. Option (List QueueMessage)) [
        | none ↦ none
        | some ms' ↦ some (m ∷ ms')
      ]
    → Acked socket n (m ∷ ms) (ack_messages socket n (m ∷ ms))
later_Acked socket n m ms u (ignored a o) e = ignored (u, a) (e ∙ rw o refl)
later_Acked socket n m ms u (acked before x after earlier r others split a h k z l o) e =
    acked (m ∷ before) x after earlier r others (ap (◌∷◌ m) split) (u, a) h k z l (e ∙ rw o refl)

-- An acknowledgement of the message `n` over a socket sets `received` to 1 in the first receiver
-- with the socket of the first message that has this id and was sent over the socket. It changes no
-- other receiver and no other message, and finds nothing only if there is no such message.
pub ack_messages-Acked :
    (socket n : ℕ) (ms : List QueueMessage) → Acked socket n ms (ack_messages socket n ms)
unfolding ack_messages
ack_messages-Acked socket n [] = ignored tt refl
ack_messages-Acked socket n (m ∷ ms) = elim (Bool-cases (m.message.id == n)) [
  | inr e ↦ later_Acked socket n m ms (inl e) (ack_messages-Acked socket n ms) (rw e refl)
  | inl e ↦ elim (ack_receivers-Marked socket m.receivers) [
    | absent a k ↦
        later_Acked socket n m ms (inr a) (ack_messages-Acked socket n ms) (rw (e, k) refl)
    | marked before r after split a h k ↦
        acked [] m ms before r after refl tt e split a h (rw (e, k) refl)
  ]
]

already_received_middle :
    (socket : ℕ) (before : List Receiver) (r : Receiver) (after : List Receiver)
    → (r.receiver_socket == socket) ≡ true
    → already_received socket (before ++ (record r { received = 1 } ∷ after)) ≡ true
unfolding already_received
already_received_middle socket [] r after h = rw h refl
already_received_middle socket (b ∷ before) r after h =
    ground (arith, already_received_middle socket before r after h)

-- Receivers that an acknowledgement over the socket has marked count as having received.
pub ack_receivers-already_received :
    (socket : ℕ) (rs rs' : List Receiver)
    → ack_receivers socket rs ≡ some rs'
    → already_received socket rs' ≡ true
ack_receivers-already_received socket rs rs' h = elim (ack_receivers-Marked socket rs) [
  | absent a n ↦ absurd (cc)
  | marked before r after split a k n ↦
      let e : rs' ≡ before ++ (record r { received = 1 } ∷ after) = cc in
      rw e (already_received_middle socket before r after k)
]

ack_subscriptors-found :
    (lib : Commons) (id : Bytes) (n : ℕ) (s : Subscriptor) (ms ms' : List QueueMessage)
    → ack_messages s.socket n ms' ≡ some ms
    → (ss : List Subscriptor) → find? (has_id lib id) ss ≡ some s
    → ack_subscriptors lib id n ss ms' ≡ ms
unfolding ack_subscriptors
ack_subscriptors-found lib id n s ms ms' k [] h = absurd (cc)
ack_subscriptors-found lib id n s ms ms' k (t ∷ ss) h = elim (Bool-cases (has_id lib id t)) [
  | inl e ↦
      let same : t ≡ s = ground arith in
      rw (e, subst (λ x. ack_messages x.socket n ms' ≡ some ms) (sym same) k) refl
  | inr e ↦ rw e (ack_subscriptors-found lib id n s ms ms' k ss (ground arith))
]

-- If `s` is the first subscriptor with the identifier, and an acknowledgement over its socket finds
-- a message to mark, `process_message_ack` leaves the queue with those messages.
process_message_ack-found :
    (lib : Commons) (q : Queue) (id : Bytes) (n : ℕ) (s : Subscriptor) (ms : List QueueMessage)
    → find? (has_id lib id) q.subscriptors ≡ some s
    → ack_messages s.socket n q.messages ≡ some ms
    → process_message_ack lib q id n ≡ record q { messages = ms }
unfolding process_message_ack
process_message_ack-found lib q id n s ms h k =
    ap (λ x. record q { messages = x })
      (ack_subscriptors-found lib id n s ms q.messages k q.subscriptors h)
