-- ===== src/EventHub.antt =====
-- api-server/internal/service/event_hub.go: the hub that wakes the event streams.
-- The mutex makes each method one step. The identity of a subscriber, a pointer in the code, is a number
-- that is not used twice. `seen` is what the stream has read from its channel. `Subscribe` raises the gauge
-- just after it has let the mutex go; here this belongs to its step.
pub mod Delivery
pub mod Counted
use waas.Prelude.{
  ℕ, zero, suc, ◌+◌, ◌-◌, Bool, true, false, not, ◌&&◌, ◌||◌, List, [], ◌∷◌, ◌++◌, Option, none,
  some, Bytes, if◌then◌else◌, ltb, ◌==◌, equal, any, length,
}

-- `make(chan string, 16)`
abbrev pub channel_size : ℕ
channel_size = 16

-- `eventSub`
pub record EventSub : Type 0 where
  pub id : ℕ
  pub owner_id : Bytes
  pub admin : Bool
  pub channel : List Bytes
  pub seen : List Bytes

-- `EventHub`, with the gauge `metrics.SSEClients`
pub record EventHub : Type 0 where
  pub subs : List EventSub
  pub next : ℕ
  pub clients : ℕ

-- `NewEventHub`
abbrev pub new_event_hub : EventHub
new_event_hub = record { subs = []; next = 0; clients = 0 }

-- `Subscribe`
unfoldable pub subscribe : Bytes → Bool → EventHub → EventHub
subscribe owner_id admin h = record {
  subs =
      record { id = h.next; owner_id = owner_id; admin = admin; channel = []; seen = [] } ∷ h.subs;
  next = suc h.next;
  clients = suc h.clients;
}

abbrev pub is_live : ℕ → List EventSub → Bool
is_live i subs = any (λ s. s.id == i) subs

-- `delete(h.subs, sub)`
unfoldable pub delete : ℕ → List EventSub → List EventSub
delete i [] = []
delete i (s ∷ subs) = let rest = delete i subs in if s.id == i then rest else s ∷ rest

-- the `cancel` that `Subscribe` returns
unfoldable pub cancel : ℕ → EventHub → EventHub
cancel i h =
    if is_live i h.subs
    then record { subs = delete i h.subs; next = h.next; clients = h.clients - 1 }
    else h

-- the test of `Notify`
abbrev pub is_concerned : Bytes → EventSub → Bool
is_concerned owner_id s = s.admin || equal owner_id [] || equal s.owner_id owner_id

-- `select { case sub.ch <- kind: default: }`
abbrev pub send : Bytes → List Bytes → List Bytes
send kind channel = if ltb (length channel) channel_size then channel ++ kind ∷ [] else channel

unfoldable pub deliver : Bytes → Bytes → EventSub → EventSub
deliver kind owner_id s = record {
  id = s.id;
  owner_id = s.owner_id;
  admin = s.admin;
  channel = if is_concerned owner_id s then send kind s.channel else s.channel;
  seen = s.seen;
}

unfoldable pub deliver_all : Bytes → Bytes → List EventSub → List EventSub
deliver_all kind owner_id [] = []
deliver_all kind owner_id (s ∷ subs) = deliver kind owner_id s ∷ deliver_all kind owner_id subs

-- `Notify`
unfoldable pub notify : Bytes → Bytes → EventHub → EventHub
notify kind owner_id h = record {
  subs = deliver_all kind owner_id h.subs;
  next = h.next;
  clients = h.clients;
}

abbrev pub rest_of : List Bytes → List Bytes
rest_of [] = []
rest_of (kind ∷ channel) = channel

abbrev pub first_of : List Bytes → List Bytes
first_of [] = []
first_of (kind ∷ channel) = kind ∷ []

-- a stream reads its channel
unfoldable pub take_one : ℕ → EventSub → EventSub
take_one i s = record {
  id = s.id;
  owner_id = s.owner_id;
  admin = s.admin;
  channel = if s.id == i then rest_of s.channel else s.channel;
  seen = if s.id == i then s.seen ++ first_of s.channel else s.seen;
}

unfoldable pub take_all : ℕ → List EventSub → List EventSub
take_all i [] = []
take_all i (s ∷ subs) = take_one i s ∷ take_all i subs

pub data Event : Type 0 where
  subscribed : Bytes → Bool → Event
  cancelled : ℕ → Event
  notified : Bytes → Bytes → Event
  received : ℕ → Event

unfoldable pub step : Event → EventHub → EventHub
step (subscribed owner_id admin) h = subscribe owner_id admin h
step (cancelled i) h = cancel i h
step (notified kind owner_id) h = notify kind owner_id h
step (received i) h = record { subs = take_all i h.subs; next = h.next; clients = h.clients }

unfoldable pub run : List Event → EventHub → EventHub
run [] h = h
run (e ∷ es) h = run es (step e h)

-- One round of `RunWatchWithObserver`: the watch fails, or it brings events until it closes, each with the
-- owner of its object (`ownerOf`, empty for a broadcast), or none for what is not an object.
pub data Watched : Type 0 where
  watch_failed : Watched
  brought : List (Option Bytes) → Watched

unfoldable pub relay : Bytes → List (Option Bytes) → List Event
relay kind [] = []
relay kind (none ∷ evs) = relay kind evs
relay kind (some owner ∷ evs) = notified kind owner ∷ relay kind evs

-- `RunWatch` until the context ends: what it does to the hub
unfoldable pub run_watch : Bytes → List Watched → EventHub → EventHub
run_watch kind [] h = h
run_watch kind (watch_failed ∷ rounds) h = run_watch kind rounds h
run_watch kind (brought evs ∷ rounds) h = run_watch kind rounds (run (relay kind evs) h)
