-- ===== src/Tests/EventHub.antt =====
-- Runs of the event hub.
use waas.Prelude.{
  ℕ, zero, suc, ◌≡◌, refl, false, List, [], ◌∷◌, ◌++◌, none, some, Bytes, codes, In, arith, equal,
}
use waas.EventHub.{
  EventSub, new_event_hub, subscribe, notify, deliver, deliver_all, cancel, delete, take_one,
  take_all, Event, subscribed, cancelled, notified, received, step, run, run_watch, brought,
  watch_failed, relay,
}
use waas.EventHub.Counted.{IsHub, run-IsHub}
use waas.EventHub.Delivery.{find, Spared, notify-delivers}

abbrev kind_of : Bytes
kind_of = codes "workspaces"

abbrev two_streams : List Event
two_streams = subscribed (codes "ann") false ∷ subscribed (codes "bob") false ∷ []

abbrev many_reads : ℕ → List Event
many_reads zero = []
many_reads (suc n) = received 0 ∷ many_reads n

-- Only the owner's stream is woken.
notify-test :
    (run
      (two_streams ++ notified kind_of (codes "ann") ∷ received 0 ∷ received 1 ∷ [])
      new_event_hub).subs
    ≡ record { id = 1; owner_id = codes "bob"; admin = false; channel = []; seen = [] }
      ∷ record { id = 0; owner_id = codes "ann"; admin = false; channel = []; seen = kind_of ∷ [] }
      ∷ []
unfolding run step subscribe notify deliver deliver_all take_one take_all equal
notify-test = refl

cancel-test : (run (two_streams ++ cancelled 0 ∷ cancelled 0 ∷ []) new_event_hub).clients ≡ 1
unfolding run step subscribe cancel delete
cancel-test = refl

-- A broadcast reaches every stream, after a watch that failed.
run_watch-test :
    (run_watch kind_of
      (watch_failed ∷ brought (none ∷ some [] ∷ []) ∷ [])
      (run two_streams new_event_hub)).subs
    ≡ record { id = 1; owner_id = codes "bob"; admin = false; channel = kind_of ∷ []; seen = [] }
      ∷ record { id = 0; owner_id = codes "ann"; admin = false; channel = kind_of ∷ []; seen = [] }
      ∷ []
unfolding run_watch relay run step subscribe notify deliver deliver_all equal
run_watch-test = refl

new_event_hub-IsHub : IsHub new_event_hub
new_event_hub-IsHub = record { each = tt; apart = tt; counted = refl }

run-IsHub_example :
    IsHub (run (two_streams ++ notified kind_of [] ∷ cancelled 0 ∷ []) new_event_hub)
run-IsHub_example =
    run-IsHub (two_streams ++ notified kind_of [] ∷ cancelled 0 ∷ []) new_event_hub
      new_event_hub-IsHub

abbrev ann_stream : EventSub
ann_stream = record { id = 0; owner_id = codes "ann"; admin = false; channel = []; seen = [] }

many_reads-Spared : (n : ℕ) → Spared 0 (many_reads n)
many_reads-Spared zero = tt
many_reads-Spared (suc n) = (refl, many_reads-Spared n)

notify-delivers_example :
    (t : EventSub) × (find 0
        (run
          (notified kind_of [] ∷ many_reads 16)
          (notify (codes "volumes") (codes "ann") (run two_streams new_event_hub))).subs
      ≡ some t)
    × In (codes "volumes") t.seen
notify-delivers_example =
    notify-delivers (codes "volumes") (codes "ann") 0 (notified kind_of [] ∷ many_reads 16)
      (run two_streams new_event_hub) ann_stream
      (run-IsHub two_streams new_event_hub new_event_hub-IsHub) (unfold run step subscribe in refl)
      (unfold equal in refl) (omega arith) (refl, many_reads-Spared 16) (omega arith)
