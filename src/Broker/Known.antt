-- ===== src/Broker/Known.antt =====
-- What a subscription finds of a subscriptor that its queue has.
use tp_so_delibird.Common.{◌==◌, ◌++◌, find?, some, Bool, true, false, List, ℕ, refl, ◌≡◌, [], ◌∷◌}
use tp_so_delibird.Wire.Bytes.{Bytes}
use tp_so_delibird.Broker.Late.{NotKnown}
use tp_so_delibird.Broker.Queues.{has_id, resubscribe}
use tp_so_delibird.Broker.State.{Commons, Subscriptor}

pub find_known :
    (lib : Commons) (id : Bytes) (s : Subscriptor) (us ss : List Subscriptor)
    → NotKnown lib id ss
    → has_id lib id s ≡ true
    → find? (has_id lib id) (ss ++ (s ∷ us)) ≡ some s
find_known lib id s us [] a h = rw h refl
find_known lib id s us (t ∷ ss) a h = rw a.0 (find_known lib id s us ss a.1 h)

resubscribe_none :
    (lib : Commons) (id : Bytes) (socket : ℕ) (ss : List Subscriptor) (old : ℕ) (already : Bool)
    → NotKnown lib id ss
    → resubscribe lib id socket ss (old, already) ≡ (ss, old, already)
unfolding resubscribe
resubscribe_none lib id socket [] old already a = refl
resubscribe_none lib id socket (t ∷ ss) old already a =
    rw (a.0, resubscribe_none lib id socket ss old already a.1) refl

pub resubscribe_known :
    (lib : Commons) (id : Bytes) (socket : ℕ) (s : Subscriptor) (us ss : List Subscriptor) (old : ℕ)
    (already : Bool)
    → NotKnown lib id ss
    → NotKnown lib id us
    → has_id lib id s ≡ true
    → resubscribe lib id socket (ss ++ (s ∷ us)) (old, already)
      ≡ (ss ++ (record s { socket = socket } ∷ us), s.socket, true)
unfolding resubscribe
resubscribe_known lib id socket s us [] old already a b h =
    rw (h, resubscribe_none lib id socket us s.socket true b) refl
resubscribe_known lib id socket s us (t ∷ ss) old already a b h =
    rw (a.0, resubscribe_known lib id socket s us ss old already a.1 b h) refl

-- One subscriptor has the identifier, over the socket, which is not 0.
pub record IsSubscribed (lib : Commons) (id : Bytes) (socket : ℕ) (ss : List Subscriptor)
    : Type 0 where
  pub before : List Subscriptor
  pub member : Subscriptor
  pub after : List Subscriptor
  pub split : ss ≡ before ++ (member ∷ after)
  pub earlier : NotKnown lib id before
  pub later : NotKnown lib id after
  pub same : has_id lib id member ≡ true
  pub over : member.socket ≡ socket
  pub open_socket : (socket == 0) ≡ false

pub again_IsSubscribed :
    (lib : Commons) (id : Bytes) (old socket : ℕ) (ss : List Subscriptor)
    (k : IsSubscribed lib id old ss)
    → (socket == 0) ≡ false
    → IsSubscribed lib id socket (k.before ++ (record (k.member) { socket = socket } ∷ k.after))
again_IsSubscribed lib id old socket ss k h = record {
  before = k.before;
  member = record (k.member) { socket = socket };
  after = k.after;
  split = refl;
  earlier = k.earlier;
  later = k.later;
  same = k.same;
  over = refl;
  open_socket = h;
}
