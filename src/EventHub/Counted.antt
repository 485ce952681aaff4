-- ===== src/EventHub/Counted.antt =====
-- The clients that are counted, and the room that a channel has.
use waas.Prelude.{
  ℕ, suc, ◌+◌, ◌<◌, ◌≤◌, ◌≡◌, refl, ◌∙◌, ap, sym, ◌≢◌, inl, inr, Bool, true, List, [], ◌∷◌, Bytes,
  arith, ltb, ◌==◌, length, length-append, All, Bool-cases,
}
use mathlib.Core.Path.{subst}
use waas.EventHub.{
  EventSub, EventHub, subscribe, is_live, delete, cancel, is_concerned, deliver, deliver_all,
  notify, rest_of, take_one, take_all, Event, subscribed, cancelled, notified, received, step, run,
}

-- A subscriber whose number has been given out, and whose channel is within its size.
pub record IsSub (next : ℕ) (s : EventSub) : Type 0 where
  pub given : s.id < next
  pub room : length s.channel ≤ 16

-- No number stands twice.
abbrev pub Apart : List EventSub → Type 0
Apart [] = Unit
Apart (s ∷ subs) = All (λ t. s.id ≢ t.id) subs × Apart subs

pub record IsHub (h : EventHub) : Type 0 where
  pub each : All (IsSub h.next) h.subs
  pub apart : Apart h.subs
  pub counted : h.clients ≡ length h.subs

later : (n : ℕ) (subs : List EventSub) → All (IsSub n) subs → All (IsSub (suc n)) subs
later n [] h = tt
later n (s ∷ subs) h =
    (record { given = (let g = h.0.given in omega arith); room = h.0.room }, later n subs h.1)

fresh : (n : ℕ) (subs : List EventSub) → All (IsSub n) subs → All (λ t. n ≢ t.id) subs
fresh n [] h = tt
fresh n (s ∷ subs) h = ((λ e. let g = h.0.given in omega arith), fresh n subs h.1)

subscribe-IsHub :
    (owner_id : Bytes) (admin : Bool) (h : EventHub) → IsHub h → IsHub (subscribe owner_id admin h)
unfolding subscribe
subscribe-IsHub owner_id admin h ok = record {
  each = (record { given = omega arith; room = omega arith }, later h.next h.subs ok.each);
  apart = (fresh h.next h.subs ok.each, ok.apart);
  counted = ap suc ok.counted;
}

All-delete :
    (P : EventSub → Type 0) (i : ℕ) (subs : List EventSub) → All P subs → All P (delete i subs)
unfolding delete
All-delete P i [] h = tt
All-delete P i (s ∷ subs) h = elim (Bool-cases (s.id == i)) [
  | inl e ↦ rw e (All-delete P i subs h.1)
  | inr e ↦ rw e (h.0, All-delete P i subs h.1)
]

Apart-delete : (i : ℕ) (subs : List EventSub) → Apart subs → Apart (delete i subs)
unfolding delete
Apart-delete i [] h = tt
Apart-delete i (s ∷ subs) h = elim (Bool-cases (s.id == i)) [
  | inl e ↦ rw e (Apart-delete i subs h.1)
  | inr e ↦ rw e (All-delete (λ t. s.id ≢ t.id) i subs h.0, Apart-delete i subs h.1)
]

length-delete_absent :
    (i : ℕ) (subs : List EventSub) → All (λ t. i ≢ t.id) subs → length (delete i subs) ≡ length subs
unfolding delete
length-delete_absent i [] h = refl
length-delete_absent i (s ∷ subs) h = elim (Bool-cases (s.id == i)) [
  | inl e ↦ absurd (h.0 (ground arith))
  | inr e ↦ rw e (ap suc (length-delete_absent i subs h.1))
]

length-delete :
    (i : ℕ) (subs : List EventSub)
    → Apart subs
    → is_live i subs ≡ true
    → length (delete i subs) + 1 ≡ length subs
unfolding delete
length-delete i [] h live = absurd cc
length-delete i (s ∷ subs) h live = elim (Bool-cases (s.id == i)) [
  | inl e ↦
      let same : s.id ≡ i = ground arith in
      let k : length (delete i subs) ≡ length subs =
        subst (λ j. length (delete j subs) ≡ length subs) same
          (length-delete_absent s.id subs h.0) in
      rw e (omega arith)
  | inr e ↦ let k = length-delete i subs h.1 (ground arith) in rw e (omega arith)
]

cancel-IsHub : (i : ℕ) (h : EventHub) → IsHub h → IsHub (cancel i h)
unfolding cancel
cancel-IsHub i h ok = elim (Bool-cases (is_live i h.subs)) [
  | inr e ↦ rw e ok
  | inl e ↦ rw e (record {
    each = All-delete (IsSub h.next) i h.subs ok.each;
    apart = Apart-delete i h.subs ok.apart;
    counted = (let k = length-delete i h.subs ok.apart e in let c = ok.counted in omega arith);
  })
]

-- What keeps the numbers and the room of the channels keeps the hub.
module _ (f : EventSub → EventSub) (same : (s : EventSub) → (f s).id ≡ s.id)
    (room : (s : EventSub) → length s.channel ≤ 16 → length (f s).channel ≤ 16) where
  abbrev each_of : List EventSub → List EventSub
  each_of [] = []
  each_of (s ∷ subs) = f s ∷ each_of subs

  All-each_of : (n : ℕ) (subs : List EventSub) → All (IsSub n) subs → All (IsSub n) (each_of subs)
  All-each_of n [] h = tt
  All-each_of n (s ∷ subs) h = (
    record { given = (let g = h.0.given in let k = same s in omega arith); room = room s h.0.room },
    All-each_of n subs h.1,
  )

  apart_of :
      (s : EventSub) (subs : List EventSub)
      → All (λ t. s.id ≢ t.id) subs
      → All (λ t. (f s).id ≢ t.id) (each_of subs)
  apart_of s [] h = tt
  apart_of s (t ∷ subs) h = ((λ e. h.0 (sym (same s) ∙ e ∙ same t)), apart_of s subs h.1)

  Apart-each_of : (subs : List EventSub) → Apart subs → Apart (each_of subs)
  Apart-each_of [] h = tt
  Apart-each_of (s ∷ subs) h = (apart_of s subs h.0, Apart-each_of subs h.1)

  length-each_of : (subs : List EventSub) → length (each_of subs) ≡ length subs
  length-each_of [] = refl
  length-each_of (s ∷ subs) = ap suc (length-each_of subs)

  each_of-IsHub :
      (h : EventHub)
      → IsHub h
      → IsHub (record { subs = each_of h.subs; next = h.next; clients = h.clients })
  each_of-IsHub h ok = record {
    each = All-each_of h.next h.subs ok.each;
    apart = Apart-each_of h.subs ok.apart;
    counted = ok.counted ∙ sym (length-each_of h.subs);
  }

deliver-room :
    (kind owner_id : Bytes) (s : EventSub)
    → length s.channel ≤ 16
    → length (deliver kind owner_id s).channel ≤ 16
unfolding deliver
deliver-room kind owner_id s h = elim (Bool-cases (is_concerned owner_id s)) [
  | inr e ↦ rw e h
  | inl e ↦ rw e (elim (Bool-cases (ltb (length s.channel) 16)) [
    | inr f ↦ rw f h
    | inl f ↦ rw f (ground (arith, length-append s.channel (kind ∷ [])))
  ])
]

shorter : (channel : List Bytes) → length (rest_of channel) ≤ length channel
shorter [] = omega arith
shorter (k ∷ channel) = omega arith

take_one-room : (i : ℕ) (s : EventSub) → length s.channel ≤ 16 → length (take_one i s).channel ≤ 16
unfolding take_one
take_one-room i s h =
    let k = shorter s.channel in
    elim (Bool-cases (s.id == i)) [ inr e ↦ rw e h | inl e ↦ rw e (omega arith) ]

deliver_all-each_of :
    (kind owner_id : Bytes) (subs : List EventSub)
    → each_of
        (deliver kind owner_id)
        (λ s. unfold deliver in refl)
        (deliver-room kind owner_id)
        subs
      ≡ deliver_all kind owner_id subs
unfolding deliver_all
deliver_all-each_of kind owner_id [] = refl
deliver_all-each_of kind owner_id (s ∷ subs) =
    ap (◌∷◌ (deliver kind owner_id s)) (deliver_all-each_of kind owner_id subs)

take_all-each_of :
    (i : ℕ) (subs : List EventSub)
    → each_of (take_one i) (λ s. unfold take_one in refl) (take_one-room i) subs ≡ take_all i subs
unfolding take_all
take_all-each_of i [] = refl
take_all-each_of i (s ∷ subs) = ap (◌∷◌ (take_one i s)) (take_all-each_of i subs)

pub step-IsHub : (e : Event) (h : EventHub) → IsHub h → IsHub (step e h)
unfolding step
step-IsHub (subscribed owner_id admin) h ok = subscribe-IsHub owner_id admin h ok
step-IsHub (cancelled i) h ok = cancel-IsHub i h ok
step-IsHub (notified kind owner_id) h ok =
    unfold notify in
    subst (λ subs. IsHub (record { subs = subs; next = h.next; clients = h.clients }))
      (deliver_all-each_of kind owner_id h.subs)
      (each_of-IsHub (deliver kind owner_id) (λ s. unfold deliver in refl)
        (deliver-room kind owner_id) h ok)
step-IsHub (received i) h ok =
    subst (λ subs. IsHub (record { subs = subs; next = h.next; clients = h.clients }))
      (take_all-each_of i h.subs)
      (each_of-IsHub (take_one i) (λ s. unfold take_one in refl) (take_one-room i) h ok)

-- However subscriptions, cancellations (repeated ones too), notifications and reads follow one another, the
-- gauge is the number of subscribers that are live, and no channel ever holds more than 16 kinds.
pub run-IsHub : (es : List Event) (h : EventHub) → IsHub h → IsHub (run es h)
unfolding run
run-IsHub [] h ok = ok
run-IsHub (e ∷ es) h ok = run-IsHub es (step e h) (step-IsHub e h ok)
