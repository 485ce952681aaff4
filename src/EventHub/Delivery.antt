-- ===== src/EventHub/Delivery.antt =====
-- What a stream gets to read.
use waas.Prelude.{
  ℕ, suc, ◌+◌, ◌<◌, ◌≤◌, ◌≡◌, refl, ◌∙◌, ap, sym, inl, inr, Bool, true, false, not, List, [], ◌∷◌,
  ◌++◌, append_assoc, Option, none, some, Bytes, arith, if◌then◌else◌, ltb, ◌==◌, length, In, All,
  Bool-cases,
}
use mathlib.Core.Path.{subst}
use waas.EventHub.{
  EventSub, EventHub, subscribe, is_live, delete, cancel, is_concerned, send, deliver, deliver_all,
  notify, first_of, take_one, take_all, Event, subscribed, cancelled, notified, received, step, run,
}
use waas.EventHub.Counted.{IsHub, IsSub, step-IsHub}

-- the subscriber with a number
abbrev pub find : ℕ → List EventSub → Option EventSub
find i [] = none
find i (s ∷ subs) = let rest = find i subs in if s.id == i then some s else rest

abbrev pub spares : ℕ → Event → Bool
spares i (cancelled j) = not (j == i)
spares i e = true

-- No event of the list cancels it.
abbrev pub Spared : ℕ → List Event → Type 0
Spared i es = All (λ e. spares i e ≡ true) es

abbrev reads : ℕ → Event → ℕ
reads i (received j) = if j == i then 1 else 0
reads i e = 0

-- how often its stream reads
abbrev pub reads_of : ℕ → List Event → ℕ
reads_of i [] = 0
reads_of i (e ∷ es) = reads i e + reads_of i es

-- what an event does to one subscriber that it does not cancel
abbrev on_event : Event → EventSub → EventSub
on_event (notified kind owner_id) s = deliver kind owner_id s
on_event (received j) s = take_one j s
on_event (subscribed owner_id admin) s = s
on_event (cancelled j) s = s

find-delete :
    (i j : ℕ) (subs : List EventSub) → not (j == i) ≡ true → find i (delete j subs) ≡ find i subs
unfolding delete
find-delete i j [] h = refl
find-delete i j (s ∷ subs) h = elim (Bool-cases (s.id == j)) [
  | inr e ↦ rw e (ap (λ rest. if s.id == i then some s else rest) (find-delete i j subs h))
  | inl e ↦ let other : s.id == i ≡ false = ground arith in rw (e, other) (find-delete i j subs h)
]

module _ (f : EventSub → EventSub) (same : (s : EventSub) → (f s).id ≡ s.id) where
  abbrev through : List EventSub → List EventSub
  through [] = []
  through (s ∷ subs) = f s ∷ through subs

  find-through :
      (i : ℕ) (subs : List EventSub) (s : EventSub)
      → find i subs ≡ some s
      → find i (through subs) ≡ some (f s)
  find-through i [] s h = absurd cc
  find-through i (t ∷ subs) s h =
      ap (λ n. if n == i then some (f t) else find i (through subs)) (same t)
      ∙ by_id (find-through i subs s) (t.id == i) h
    where
      by_id :
          (find i subs ≡ some s → find i (through subs) ≡ some (f s))
          → (b : Bool) → (if b then some t else find i subs) ≡ some s
          → (if b then some (f t) else find i (through subs)) ≡ some (f s)
      by_id ih true k = let eq : t ≡ s = cc in ap (λ r. some (f r)) eq
      by_id ih false k = ih k

through-deliver :
    (kind owner_id : Bytes) (subs : List EventSub)
    → through (deliver kind owner_id) (λ s. unfold deliver in refl) subs
      ≡ deliver_all kind owner_id subs
unfolding deliver_all
through-deliver kind owner_id [] = refl
through-deliver kind owner_id (s ∷ subs) =
    ap (◌∷◌ (deliver kind owner_id s)) (through-deliver kind owner_id subs)

through-take :
    (i : ℕ) (subs : List EventSub)
    → through (take_one i) (λ s. unfold take_one in refl) subs ≡ take_all i subs
unfolding take_all
through-take i [] = refl
through-take i (s ∷ subs) = ap (◌∷◌ (take_one i s)) (through-take i subs)

find-given :
    (n i : ℕ) (subs : List EventSub) (s : EventSub)
    → All (IsSub n) subs
    → find i subs ≡ some s
    → i < n
find-given n i [] s h k = absurd cc
find-given n i (t ∷ subs) s h k = elim (Bool-cases (t.id == i)) [
  | inl e ↦ let g = h.0.given in ground arith
  | inr e ↦ find-given n i subs s h.1 (rw e at k)
]

find-id : (i : ℕ) (subs : List EventSub) (s : EventSub) → find i subs ≡ some s → s.id ≡ i
find-id i [] s k = absurd cc
find-id i (t ∷ subs) s k = elim (Bool-cases (t.id == i)) [
  | inl e ↦
      let k' = rw e at k in
      let eq : t ≡ s = cc in let t_id : t.id ≡ i = ground arith in sym (ap (λ r. r.id) eq) ∙ t_id
  | inr e ↦ find-id i subs s (rw e at k)
]

find-step :
    (i : ℕ) (e : Event) (h : EventHub) (s : EventSub)
    → IsHub h
    → spares i e ≡ true
    → find i h.subs ≡ some s
    → find i (step e h).subs ≡ some (on_event e s)
unfolding step
find-step i (subscribed owner_id admin) h s ok spared k =
    unfold subscribe in
    let lt = find-given h.next i h.subs s ok.each k in
    let other : h.next == i ≡ false = ground arith in rw other k
find-step i (cancelled j) h s ok spared k =
    unfold cancel in
    elim (Bool-cases (is_live j h.subs)) [
      | inl e ↦ rw e (find-delete i j h.subs spared ∙ k)
      | inr e ↦ rw e k
    ]
find-step i (notified kind owner_id) h s ok spared k =
    unfold notify in
    ap (find i) (sym (through-deliver kind owner_id h.subs))
    ∙ find-through (deliver kind owner_id) (λ s. unfold deliver in refl) i h.subs s k
find-step i (received j) h s ok spared k =
    ap (find i) (sym (through-take j h.subs))
    ∙ find-through (take_one j) (λ s. unfold take_one in refl) i h.subs s k

-- The kind has been read, or the stream comes to it within `n` reads.
pub data Waits (kind : Bytes) (n : ℕ) (s : EventSub) : Type 0 where
  was_read : In kind s.seen → Waits kind n s
  waits : (xs ys : List Bytes) → s.channel ≡ xs ++ kind ∷ ys → length xs < n → Waits kind n s

In-before : (x : Bytes) (xs ys : List Bytes) → In x xs → In x (xs ++ ys)
In-before x [] ys h = elim h [ ]
In-before x (z ∷ xs) ys h = elim h [ inl e ↦ inl e | inr i ↦ inr (In-before x xs ys i) ]

In-behind : (x : Bytes) (xs ys : List Bytes) → In x (xs ++ x ∷ ys)
In-behind x [] ys = inl refl
In-behind x (z ∷ xs) ys = inr (In-behind x xs ys)

send-waits :
    (kind other : Bytes) (xs ys channel : List Bytes)
    → channel ≡ xs ++ kind ∷ ys
    → (zs : List Bytes) × (send other channel ≡ xs ++ kind ∷ zs)
send-waits kind other xs ys channel e = elim (Bool-cases (ltb (length channel) 16)) [
  | inr f ↦ rw f (ys, e)
  | inl f ↦
      rw f
        (ys ++ other ∷ [], ap (λ c. c ++ other ∷ []) e ∙ append_assoc xs (kind ∷ ys) (other ∷ []))
]

deliver-Waits :
    (kind : Bytes) (n : ℕ) (other owner_id : Bytes) (s : EventSub)
    → Waits kind n s
    → Waits kind n (deliver other owner_id s)
unfolding deliver
deliver-Waits kind n other owner_id s (was_read i) = was_read i
deliver-Waits kind n other owner_id s (waits xs ys e lt) =
    elim (Bool-cases (is_concerned owner_id s)) [
      | inr f ↦ waits xs ys (rw f e) lt
      | inl f ↦ let (zs, g) = send-waits kind other xs ys s.channel e in waits xs zs (rw f g) lt
    ]

read-Waits :
    (kind : Bytes) (n : ℕ) (s : EventSub) (i : ℕ)
    → s.id == i ≡ true
    → Waits kind (suc n) s
    → Waits kind n (take_one i s)
unfolding take_one
read-Waits kind n s i same (was_read i') =
    was_read (rw same (In-before kind s.seen (first_of s.channel) i'))
read-Waits kind n s i same (waits [] ys e lt) = was_read (rw (same, e) (In-behind kind s.seen []))
read-Waits kind n s i same (waits (x ∷ xs) ys e lt) = waits xs ys (rw (same, e) refl) (omega arith)

take-Waits :
    (kind : Bytes) (n : ℕ) (s : EventSub) (i j : ℕ)
    → s.id ≡ i
    → Waits kind (reads i (received j) + n) s
    → Waits kind n (take_one j s)
take-Waits kind n s i j same h = elim (Bool-cases (j == i)) [
  | inl e ↦
      let h' : Waits kind (1 + n) s = rw e at h in
      let here : s.id == j ≡ true = ground arith in
      read-Waits kind n s j here (subst (λ m. Waits kind m s) (omega arith) h')
  | inr e ↦
      let h' : Waits kind (0 + n) s = rw e at h in
      let other : s.id == j ≡ false = ground arith in
      untouched other (subst (λ m. Waits kind m s) (omega arith) h')
]
  where
    untouched : s.id == j ≡ false → Waits kind n s → Waits kind n (take_one j s)
    untouched o (was_read i') = was_read (unfold take_one in rw o i')
    untouched o (waits xs ys e lt) = waits xs ys (unfold take_one in rw o e) lt

on_event-Waits :
    (kind : Bytes) (n i : ℕ) (e : Event) (s : EventSub)
    → s.id ≡ i
    → Waits kind (reads i e + n) s
    → Waits kind n (on_event e s)
on_event-Waits kind n i (subscribed owner_id admin) s same h =
    subst (λ m. Waits kind m s) (omega arith) h
on_event-Waits kind n i (cancelled j) s same h = subst (λ m. Waits kind m s) (omega arith) h
on_event-Waits kind n i (notified other owner_id) s same h =
    deliver-Waits kind n other owner_id s (subst (λ m. Waits kind m s) (omega arith) h)
on_event-Waits kind n i (received j) s same h = take-Waits kind n s i j same h

run-Waits :
    (kind : Bytes) (n i : ℕ) (es : List Event) (h : EventHub) (s : EventSub)
    → IsHub h
    → Spared i es
    → find i h.subs ≡ some s
    → Waits kind (reads_of i es + n) s
    → (t : EventSub) × (find i (run es h).subs ≡ some t) × Waits kind n t
unfolding run
run-Waits kind n i [] h s ok spared k w = (s, k, subst (λ m. Waits kind m s) (omega arith) w)
run-Waits kind n i (e ∷ es) h s ok spared k w =
    run-Waits kind n i es (step e h) (on_event e s) (step-IsHub e h ok) spared.1
      (find-step i e h s ok spared.0 k)
      (on_event-Waits kind (reads_of i es + n) i e s (find-id i h.subs s k)
        (subst (λ m. Waits kind m s) (omega arith) w))

read_by_now : (kind : Bytes) (n : ℕ) (s : EventSub) → n ≡ 0 → Waits kind n s → In kind s.seen
read_by_now kind n s z (was_read i) = i
read_by_now kind n s z (waits xs ys e lt) = absurd (omega arith)

more_reads : (kind : Bytes) (n m : ℕ) (s : EventSub) → n ≤ m → Waits kind n s → Waits kind m s
more_reads kind n m s le (was_read i) = was_read i
more_reads kind n m s le (waits xs ys e lt) = waits xs ys e (omega arith)

notify-Waits :
    (kind owner_id : Bytes) (s : EventSub)
    → is_concerned owner_id s ≡ true
    → length s.channel < 16
    → Waits kind 16 (deliver kind owner_id s)
unfolding deliver
notify-Waits kind owner_id s concerned room =
    let fits : ltb (length s.channel) 16 ≡ true = ground arith in
    waits s.channel [] (rw (concerned, fits) refl) room

-- A subscriber that a change concerns (it is the owner's, or an administrator's, or the change is everyone's)
-- and whose channel is not full when `Notify` is called has read the kind by the end of any further events in
-- which its stream reads sixteen times or more and is not cancelled, whatever else is notified in between.
pub notify-delivers :
    (kind owner_id : Bytes) (i : ℕ) (es : List Event) (h : EventHub) (s : EventSub)
    → IsHub h
    → find i h.subs ≡ some s
    → is_concerned owner_id s ≡ true
    → length s.channel < 16
    → Spared i es
    → 16 ≤ reads_of i es
    → (t : EventSub) × (find i (run es (notify kind owner_id h)).subs ≡ some t) × In kind t.seen
notify-delivers kind owner_id i es h s ok k concerned room spared enough =
    let h' : EventHub = step (notified kind owner_id) h in
    let w =
      more_reads kind 16 (reads_of i es + 0) (deliver kind owner_id s) (omega arith)
        (notify-Waits kind owner_id s concerned room) in
    let (t, found, left) =
      run-Waits kind 0 i es h' (deliver kind owner_id s) (step-IsHub (notified kind owner_id) h ok)
        spared (find-step i (notified kind owner_id) h s ok refl k) w in
    (t, (unfold step in found), read_by_now kind 0 t refl left)
