-- ===== src/Broker/Late.antt =====
-- A subscriptor that comes after a message: it is sent the message and no receiver is recorded for
-- it, so that its acknowledgement finds nothing to mark.
use tp_so_delibird.Common.{
  Option-cases, suc, inr, ◌++◌, inl, ◌==◌, true, false, map, Bool-cases, find?, Bool, All, List, ℕ,
  refl, ◌≡◌, none, some, [], ◌∷◌,
}
use tp_so_delibird.Wire.Bytes.{Bytes}
use tp_so_delibird.Wire.Types.{of_u32, SubscriptionPetition}
use tp_so_delibird.Broker.Acknowledgements.{NotTo}
use tp_so_delibird.Broker.Queues.{
  UnsetLocals, skips, move_receiver, has_id, send_loop, send_all_messages, add_subscriptor,
  resubscribe, exist_in_queue, ack_receivers, ack_messages,
}
use tp_so_delibird.Broker.Requests.{Context, subscribe}
use tp_so_delibird.Broker.Sending.{send_loop_send, partition_of, send_loop_skip}
use tp_so_delibird.Broker.State.{
  set_queue, get_queue, queue_of_code, Broker, QueueName, Partition, QueueMessage, Queue,
  Subscriptor, Receiver, Commons,
}
use tp_so_delibird.Broker.Stored.{get-set_queue}
use mathlib.Core.Path.{subst, sym, ◌∙◌, ap}

move_NotTo :
    (old socket : ℕ) (rs : List Receiver) → NotTo old rs → map (move_receiver old socket) rs ≡ rs
move_NotTo old socket [] a = refl
move_NotTo old socket (r ∷ rs) a = rw (a.0, move_NotTo old socket rs a.1) refl

abbrev pub NeverSent : ℕ → List QueueMessage → Type 0
NeverSent socket ms = All (λ m. NotTo socket m.receivers) ms

module _ (code socket : ℕ) (raw : Receiver) (cells : Bytes) where
  -- A subscriptor over a socket that no message was sent to leaves the messages as they are.
  pub send_loop-NeverSent :
      (time : ℕ → ℕ) (i : ℕ) (ms : List QueueMessage) (ps : List Partition)
      → NeverSent socket ms
      → (send_loop code socket socket true raw cells time i ms ps).messages ≡ ms
  unfolding send_loop
  send_loop-NeverSent time i [] ps a = refl
  send_loop-NeverSent time i (m ∷ ms) ps (a, b) =
      elim (Bool-cases (skips code socket socket true raw cells m)) [
        | inl k ↦
            rw (send_loop_skip code socket socket true raw cells time i m ms ps k)
              (ap (◌∷◌ m) (send_loop-NeverSent time (suc i) ms ps b))
        | inr k ↦ elim (Option-cases (partition_of ps m)) [
          | inl e ↦ rw (send_loop, k, e) refl
          | inr (p, e) ↦
              rw
                (
                  send_loop_send code socket socket true raw cells time i m ms ps p k e,
                  move_NotTo socket socket m.receivers a,
                )
                (ap (◌∷◌ m) (send_loop-NeverSent time (suc i) ms _ b))
        ]
      ]

ack_receivers-NotTo :
    (socket : ℕ) (rs : List Receiver) → NotTo socket rs → ack_receivers socket rs ≡ none
unfolding ack_receivers
ack_receivers-NotTo socket [] a = refl
ack_receivers-NotTo socket (r ∷ rs) a = rw (a.0, ack_receivers-NotTo socket rs a.1) refl

ack_messages-NeverSent :
    (socket n : ℕ) (ms : List QueueMessage) → NeverSent socket ms → ack_messages socket n ms ≡ none
unfolding ack_messages
ack_messages-NeverSent socket n [] a = refl
ack_messages-NeverSent socket n (m ∷ ms) (a, b) = elim (Bool-cases (m.message.id == n)) [
  | inl e ↦
      rw (e, ack_receivers-NotTo socket m.receivers a, ack_messages-NeverSent socket n ms b) refl
  | inr e ↦ rw (e, ack_messages-NeverSent socket n ms b) refl
]

abbrev pub NotKnown : Commons → Bytes → List Subscriptor → Type 0
NotKnown lib id ss = All (λ s. has_id lib id s ≡ false) ss

find_NotKnown :
    (lib : Commons) (id : Bytes) (ss : List Subscriptor)
    → NotKnown lib id ss
    → find? (has_id lib id) ss ≡ none
find_NotKnown lib id [] a = refl
find_NotKnown lib id (s ∷ ss) a = rw (a.0, find_NotKnown lib id ss a.1) refl

exist_in_queue-NotKnown :
    (lib : Commons) (id : Bytes) (q : Queue)
    → NotKnown lib id q.subscriptors
    → exist_in_queue lib q id ≡ 0
unfolding exist_in_queue
exist_in_queue-NotKnown lib id q a = rw (exist_in_queue, find_NotKnown lib id q.subscriptors a) refl

resubscribe_last :
    (lib : Commons) (s : Subscriptor) (ss : List Subscriptor) (old : ℕ) (already : Bool)
    → let id = s.subscriptor_info.subscriptor_id in
      NotKnown lib id ss
      → has_id lib id s ≡ true
      → resubscribe lib id s.socket (ss ++ (s ∷ [])) (old, already)
        ≡ (ss ++ (s ∷ []), s.socket, true)
unfolding resubscribe
resubscribe_last lib s [] old already a h = rw h refl
resubscribe_last lib s (t ∷ ss) old already a h =
    rw (a.0, resubscribe_last lib s ss old already a.1 h) refl

added_lem :
    (lib : Commons) (s : Subscriptor) (q : Queue)
    → NotKnown lib s.subscriptor_info.subscriptor_id q.subscriptors
    → add_subscriptor lib s q ≡ record q { subscriptors = q.subscriptors ++ (s ∷ []) }
unfolding add_subscriptor
added_lem lib s q a =
    rw (add_subscriptor, exist_in_queue-NotKnown lib s.subscriptor_info.subscriptor_id q a) refl

send_all_messages-NeverSent :
    (lib : Commons) (locals : UnsetLocals) (time : ℕ → ℕ) (s : Subscriptor) (ss : List Subscriptor)
    (name : QueueName) (b : Broker)
    → let petition = s.subscriptor_info in
      (get_queue name b.queues).subscriptors ≡ ss ++ (s ∷ [])
      → NotKnown lib petition.subscriptor_id ss
      → has_id lib petition.subscriptor_id s ≡ true
      → NeverSent s.socket (get_queue name b.queues).messages
      → (get_queue name
          (send_all_messages lib locals time s.socket petition name b).2.queues).messages
        ≡ (get_queue name b.queues).messages
unfolding send_all_messages
send_all_messages-NeverSent lib locals time s ss name b e new same never =
    let petition = s.subscriptor_info in
    let q = get_queue name b.queues in
    let r : resubscribe lib petition.subscriptor_id s.socket q.subscriptors
          (locals.old_socket, locals.already_subscribed)
        ≡ (ss ++ (s ∷ []), s.socket, true) =
      rw e (resubscribe_last lib s ss locals.old_socket locals.already_subscribed new same) in
    rw (send_all_messages, r)
      (ap (λ x. x.messages) (get-set_queue name _ b.queues)
        ∙ send_loop-NeverSent petition.queue s.socket locals.raw_receiver b.memory.cells time 0
            q.messages b.memory.partitions never)

-- If a new identifier subscribes over a socket that no message of the queue was sent to, the
-- messages of the queue stay as they are, whatever is sent, and an acknowledgement of any message
-- over the socket finds no receiver to mark. (The comparison of identifiers holds of the new one
-- and itself.)
pub subscribe-NeverSent :
    (ctx : Context) (name : QueueName) (socket n : ℕ) (petition : SubscriptionPetition) (b : Broker)
    → queue_of_code (of_u32 petition.queue) ≡ some name
    → ctx.lib.equals_ignore_case petition.subscriptor_id petition.subscriptor_id ≡ true
    → NotKnown ctx.lib petition.subscriptor_id (get_queue name b.queues).subscriptors
    → NeverSent socket (get_queue name b.queues).messages
    → let after = get_queue name (subscribe ctx socket petition b).broker.queues in
      (after.messages ≡ (get_queue name b.queues).messages)
      × (ack_messages socket n after.messages ≡ none)
unfolding subscribe
subscribe-NeverSent ctx name socket n petition b c same new never =
    let q = get_queue name b.queues in
    let s : Subscriptor = record { subscriptor_info = petition; socket = socket } in
    let e : (get_queue name (subscribe ctx socket petition b).broker.queues).messages ≡ q.messages =
      rw (subscribe, c, added_lem ctx.lib s q new)
        (send_all_messages-NeverSent ctx.lib ctx.locals ctx.time s q.subscriptors name
            (record b {
              queues =
                  set_queue name (record q { subscriptors = q.subscriptors ++ (s ∷ []) }) b.queues;
            })
            (ap (λ x. x.subscriptors) (get-set_queue name _ b.queues)) new same
            (subst (λ x. NeverSent socket x.messages) (sym (get-set_queue name _ b.queues)) never)
          ∙ ap (λ x. x.messages) (get-set_queue name _ b.queues)) in
    (
      e,
      subst (λ ms. ack_messages socket n ms ≡ none) (sym e)
          (ack_messages-NeverSent socket n q.messages never),
    )
