-- ===== src/Broker/Again.antt =====
-- A subscriptor that comes back twice: the receivers of the messages that it has acknowledged keep
-- the socket of its first connection.
use tp_so_delibird.Common.{
  ◌==◌, ◌++◌, map, find?, some, suc, true, false, All, List, ℕ, refl, ◌≡◌, [], ◌∷◌,
}
use tp_so_delibird.Wire.Bytes.{Bytes}
use tp_so_delibird.Wire.Types.{of_u32, SubscriptionPetition}
use tp_so_delibird.Broker.Acknowledgements.{NotTo}
use tp_so_delibird.Broker.Known.{find_known, resubscribe_known, IsSubscribed, again_IsSubscribed}
use tp_so_delibird.Broker.Late.{NeverSent}
use tp_so_delibird.Broker.Queues.{
  send_loop, already_received, has_id, resubscribe, exist_in_queue, add_subscriptor,
  send_all_messages, Sending,
}
use tp_so_delibird.Broker.Requests.{Context, Response, subscribe}
use tp_so_delibird.Broker.Sending.{send_loop-frames, send_loop_skip, frames_of, pending, IsHeld}
use tp_so_delibird.Broker.State.{
  Partition, QueueMessage, Receiver, Broker, QueueName, Queues, get_queue, set_queue, queue_of_code,
  queue_new_pokemon, queue_appeared_pokemon, queue_catch_pokemon, queue_caught_pokemon,
  queue_get_pokemon, queue_localized_pokemon,
}
use tp_so_delibird.Broker.Stored.{get-set_queue}
use mathlib.Core.Path.{◌∙◌, ap, sym, subst}

abbrev pub IsAcknowledged : ℕ → List QueueMessage → Type 0
IsAcknowledged socket ms = All (λ m. already_received socket m.receivers ≡ true) ms

already_received-NotTo :
    (socket : ℕ) (rs : List Receiver) → NotTo socket rs → already_received socket rs ≡ false
unfolding already_received
already_received-NotTo socket [] a = refl
already_received-NotTo socket (r ∷ rs) a = rw (a.0, already_received-NotTo socket rs a.1) refl

module _ (code : ℕ) (raw : Receiver) (cells : Bytes) where
  send_loop-IsAcknowledged :
      (socket old : ℕ) (time : ℕ → ℕ) (i : ℕ) (ms : List QueueMessage) (ps : List Partition)
      → IsAcknowledged old ms
      → send_loop code socket old true raw cells time i ms ps
        ≡ record { frames = []; messages = ms; partitions = ps; locked = false }
  unfolding send_loop
  send_loop-IsAcknowledged socket old time i [] ps a = refl
  send_loop-IsAcknowledged socket old time i (m ∷ ms) ps (a, b) =
      rw
        (
          send_loop_skip code socket old true raw cells time i m ms ps a,
          send_loop-IsAcknowledged socket old time (suc i) ms ps b,
        )
        refl

  pending-NeverSent :
      (socket old : ℕ) (ms : List QueueMessage)
      → NeverSent old ms
      → pending code socket old true raw cells ms ≡ ms
  pending-NeverSent socket old [] a = refl
  pending-NeverSent socket old (m ∷ ms) (a, b) =
      rw (already_received-NotTo old m.receivers a, pending-NeverSent socket old ms b) refl

  -- The loop of a return over `first`, and of the next one over `second`.
  send_loop-again :
      (old first second : ℕ) (time time' : ℕ → ℕ) (ms : List QueueMessage) (ps : List Partition)
      → IsAcknowledged old ms
      → NeverSent first ms
      → All (IsHeld ps) ms
      → let s = send_loop code first old true raw cells time 0 ms ps in
        (s.frames ≡ [])
        × ((send_loop code second first true raw cells time' 0 s.messages s.partitions).frames
            ≡ frames_of code cells ps ms)
  send_loop-again old first second time time' ms ps a n h =
      let s = send_loop code first old true raw cells time 0 ms ps in
      let e : s ≡ record { frames = []; messages = ms; partitions = ps; locked = false } =
        send_loop-IsAcknowledged first old time 0 ms ps a in
      let again : (send_loop code second first true raw cells time' 0 ms ps).frames
          ≡ frames_of code cells ps ms =
        (send_loop-frames code second first true raw cells time' 0 ms ps h).0
        ∙ ap (frames_of code cells ps) (pending-NeverSent second first ms n) in
      (ap (λ x. x.frames) e, rw (ap (λ x. x.messages) e, ap (λ x. x.partitions) e) again)

set-get_queue : (name : QueueName) (qs : Queues) → set_queue name (get_queue name qs) qs ≡ qs
set-get_queue queue_new_pokemon qs = refl
set-get_queue queue_appeared_pokemon qs = refl
set-get_queue queue_catch_pokemon qs = refl
set-get_queue queue_caught_pokemon qs = refl
set-get_queue queue_get_pokemon qs = refl
set-get_queue queue_localized_pokemon qs = refl

module _ (ctx : Context) (name : QueueName) (petition : SubscriptionPetition)
    (code : queue_of_code (of_u32 petition.queue) ≡ some name) where
  -- The loop of a subscription over `socket` of whom was subscribed over `old`.
  abbrev loop_of : ℕ → ℕ → Broker → Sending
  loop_of socket old b =
      send_loop petition.queue socket old true ctx.locals.raw_receiver b.memory.cells ctx.time 0
        (get_queue name b.queues).messages b.memory.partitions

  -- What the subscription leaves.
  abbrev answer :
      (socket old : ℕ) (b : Broker)
      → IsSubscribed ctx.lib petition.subscriptor_id old (get_queue name b.queues).subscriptors
      → Response
  answer socket old b k = record {
    broker = record b {
      queues =
          set_queue name
            (record {
              messages = (loop_of socket old b).messages;
              subscriptors = k.before ++ (record (k.member) { socket = socket } ∷ k.after);
            })
            b.queues;
      memory = record (b.memory) { partitions = (loop_of socket old b).partitions };
    };
    sent = map (λ frame. (socket, frame)) (loop_of socket old b).frames;
  }

  subscribe_known :
      (socket old : ℕ) (b : Broker)
      (k : IsSubscribed ctx.lib petition.subscriptor_id old (get_queue name b.queues).subscriptors)
      → subscribe ctx socket petition b ≡ answer socket old b k
  unfolding subscribe add_subscriptor exist_in_queue send_all_messages
  subscribe_known socket old b k =
      let q = get_queue name b.queues in
      let id = petition.subscriptor_id in
      let f : find? (has_id ctx.lib id) q.subscriptors ≡ some k.member =
        rw k.split (find_known ctx.lib id k.member k.after k.before k.earlier k.same) in
      let z : (k.member.socket == 0) ≡ false = rw k.over k.open_socket in
      let r : resubscribe ctx.lib id socket q.subscriptors
            (ctx.locals.old_socket, ctx.locals.already_subscribed)
          ≡ (k.before ++ (record (k.member) { socket = socket } ∷ k.after), k.member.socket, true) =
        rw k.split (
          resubscribe_known ctx.lib id socket k.member k.after k.before ctx.locals.old_socket
            ctx.locals.already_subscribed k.earlier k.later k.same) in
      rw (subscribe, code, add_subscriptor, exist_in_queue, f, z, set-get_queue name b.queues)
        (rw (send_all_messages, r, k.over) refl)

  -- If one subscriptor has the identifier and has acknowledged every message of the queue over its
  -- socket `old`, then a subscription over `first` sends it nothing, and the next one, over
  -- `second`, sends it every message again, in the order of the queue. (The sockets `old` and
  -- `first` are not 0, no message was sent over `first`, and every message has its partition in
  -- memory.)
  pub subscribe-again :
      (old first second : ℕ) (b : Broker)
      → IsSubscribed ctx.lib petition.subscriptor_id old (get_queue name b.queues).subscriptors
      → (first == 0) ≡ false
      → IsAcknowledged old (get_queue name b.queues).messages
      → NeverSent first (get_queue name b.queues).messages
      → All (IsHeld b.memory.partitions) (get_queue name b.queues).messages
      → ((subscribe ctx first petition b).sent ≡ [])
        × ((subscribe ctx second petition (subscribe ctx first petition b).broker).sent
            ≡ map
                (λ frame. (second, frame))
                (frames_of petition.queue b.memory.cells b.memory.partitions
                  (get_queue name b.queues).messages))
  subscribe-again old first second b k z a n h =
      let q = get_queue name b.queues in
      let e = subscribe_known first old b k in
      let b' = (answer first old b k).broker in
      let g = get-set_queue name _ b.queues in
      let k' : IsSubscribed ctx.lib petition.subscriptor_id first
          (get_queue name b'.queues).subscriptors =
        subst (λ x. IsSubscribed ctx.lib petition.subscriptor_id first x.subscriptors) (sym g)
          (again_IsSubscribed ctx.lib petition.subscriptor_id old first q.subscriptors k z) in
      let (nothing, all) =
        send_loop-again petition.queue ctx.locals.raw_receiver b.memory.cells old first second
          ctx.time ctx.time q.messages b.memory.partitions a n h in
      (
        rw (e, nothing) refl,
        rw (e, subscribe_known second first b' k', ap (λ x. x.messages) g)
            (ap (map (λ frame. (second, frame))) all),
      )
