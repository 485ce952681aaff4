-- ===== src/Controller/Conditions.antt =====
-- What setting a condition does to the list of conditions.
use waas.Prelude.{
  ℕ, ◌≡◌, refl, ◌∙◌, ap, sym, ◌≢◌, inl, inr, true, false, ◌&&◌, List, [], ◌∷◌, Option, none, some,
  Bytes, if◌then◌else◌, equal, equal_iff, equal_refl, All, Bool-cases,
}
use mathlib.Core.Path.{subst}
use waas.Controller.Status.{
  Condition, WorkspaceStatus, refreshed, set_condition_in, set_typed_condition,
}

-- the condition of a type
abbrev pub condition_of : Bytes → List Condition → Option Condition
condition_of kind [] = none
condition_of kind (c ∷ cs) =
    let rest = condition_of kind cs in if equal c.kind kind then some c else rest

-- No type stands twice.
abbrev pub EachOnce : List Condition → Type 0
EachOnce [] = Unit
EachOnce (c ∷ cs) = All (λ d. d.kind ≢ c.kind) cs × EachOnce cs

-- when the status was last changed, if the condition is set to a status now
abbrev pub since_of : Option Condition → Bytes → ℕ → ℕ
since_of none status now = now
since_of (some c) status now = if equal c.status status then c.since else now

refreshed-kind : (e c : Condition) → equal e.kind c.kind ≡ true → (refreshed e c).kind ≡ c.kind
refreshed-kind e c same =
    elim (Bool-cases
      (equal e.status c.status && equal e.reason c.reason && equal e.message c.message)) [
        | inl t ↦ rw t ((equal_iff e.kind c.kind).0 same)
        | inr t ↦
            rw t (elim (Bool-cases (equal e.status c.status)) [
              | inl s ↦ rw s refl
              | inr s ↦ rw s refl
            ])
      ]

All-set :
    (P : Condition → Type 0) (c : Condition) (cs : List Condition)
    → ((e : Condition) → equal e.kind c.kind ≡ true → P (refreshed e c))
    → P c
    → All P cs
    → All P (set_condition_in c cs)
unfolding set_condition_in
All-set P c [] hr hc h = (hc, tt)
All-set P c (e ∷ cs) hr hc h = elim (Bool-cases (equal e.kind c.kind)) [
  | inl t ↦ rw t (hr e t, h.1)
  | inr t ↦ rw t (h.0, All-set P c cs hr hc h.1)
]

set_condition_in-EachOnce :
    (c : Condition) (cs : List Condition) → EachOnce cs → EachOnce (set_condition_in c cs)
unfolding set_condition_in
set_condition_in-EachOnce c [] h = (tt, tt)
set_condition_in-EachOnce c (e ∷ cs) h = elim (Bool-cases (equal e.kind c.kind)) [
  | inl t ↦ rw t (
    subst (λ k. All (λ d. d.kind ≢ k) cs)
        ((equal_iff e.kind c.kind).0 t ∙ sym (refreshed-kind e c t)) h.0,
    h.1,
  )
  | inr t ↦ rw t (
    All-set (λ d. d.kind ≢ e.kind) c cs (λ d same k. other t (sym (refreshed-kind d c same) ∙ k))
        (λ k. other t k) h.0,
    set_condition_in-EachOnce c cs h.1,
  )
]
  where
    other : equal e.kind c.kind ≡ false → c.kind ≢ e.kind
    other t k = let s = (equal_iff e.kind c.kind).1 (sym k) in cc

condition_of-other :
    (kind : Bytes) (c : Condition) (cs : List Condition)
    → kind ≢ c.kind
    → condition_of kind (set_condition_in c cs) ≡ condition_of kind cs
unfolding set_condition_in
condition_of-other kind c [] other = let f = unequal kind c.kind other in rw f refl
  where
    unequal : (a b : Bytes) → a ≢ b → equal b a ≡ false
    unequal a b h = elim (Bool-cases (equal b a)) [
      | inl e ↦ absurd (h (sym ((equal_iff b a).0 e)))
      | inr e ↦ e
    ]
condition_of-other kind c (e ∷ cs) other = elim (Bool-cases (equal e.kind c.kind)) [
  | inr t ↦
      rw t (
        ap (λ rest. if equal e.kind kind then some e else rest)
          (condition_of-other kind c cs other))
  | inl t ↦ rw t (
      skipped (refreshed e c) e (unequal (refreshed e c) (refreshed-kind e c t))
        (unequal e ((equal_iff e.kind c.kind).0 t)))
]
  where
    unequal : (d : Condition) → d.kind ≡ c.kind → equal d.kind kind ≡ false
    unequal d k = elim (Bool-cases (equal d.kind kind)) [
      | inl x ↦ absurd (other (sym ((equal_iff d.kind kind).0 x) ∙ k))
      | inr x ↦ x
    ]

    skipped :
        (d d' : Condition)
        → equal d.kind kind ≡ false
        → equal d'.kind kind ≡ false
        → (if equal d.kind kind then some d else condition_of kind cs)
          ≡ (if equal d'.kind kind then some d' else condition_of kind cs)
    skipped d d' x y = rw (x, y) refl

-- A condition as it was set.
pub record IsCurrent (status reason message : Bytes) (since : ℕ) (o : Option Condition)
    : Type 0 where
  pub condition : Condition
  pub present : o ≡ some condition
  pub status_set : condition.status ≡ status
  pub reason_set : condition.reason ≡ reason
  pub message_set : condition.message ≡ message
  pub since_kept : condition.since ≡ since

refreshed-IsCurrent :
    (e c : Condition)
    → IsCurrent c.status c.reason c.message
        (since_of (some e) c.status c.since)
        (some (refreshed e c))
refreshed-IsCurrent e c = elim (Bool-cases (equal e.status c.status)) [
  | inr s ↦ rw s (record {
    condition = c;
    present = refl;
    status_set = refl;
    reason_set = refl;
    message_set = refl;
    since_kept = refl;
  })
  | inl s ↦ rw s (elim (Bool-cases (equal e.reason c.reason)) [
    | inr r ↦ rw r (record {
      condition = record c { since = e.since };
      present = refl;
      status_set = refl;
      reason_set = refl;
      message_set = refl;
      since_kept = refl;
    })
    | inl r ↦ rw r (elim (Bool-cases (equal e.message c.message)) [
      | inr m ↦ rw m (record {
        condition = record c { since = e.since };
        present = refl;
        status_set = refl;
        reason_set = refl;
        message_set = refl;
        since_kept = refl;
      })
      | inl m ↦ rw m (record {
        condition = e;
        present = refl;
        status_set = (equal_iff e.status c.status).0 s;
        reason_set = (equal_iff e.reason c.reason).0 r;
        message_set = (equal_iff e.message c.message).0 m;
        since_kept = refl;
      })
    ])
  ])
]

set_condition_in-IsCurrent :
    (c : Condition) (cs : List Condition)
    → IsCurrent c.status c.reason c.message
        (since_of (condition_of c.kind cs) c.status c.since)
        (condition_of c.kind (set_condition_in c cs))
unfolding set_condition_in
set_condition_in-IsCurrent c [] =
    let s = equal_refl c.kind in
    rw s (record {
      condition = c;
      present = refl;
      status_set = refl;
      reason_set = refl;
      message_set = refl;
      since_kept = refl;
    })
set_condition_in-IsCurrent c (e ∷ cs) = elim (Bool-cases (equal e.kind c.kind)) [
  | inr t ↦ rw (t, t) (set_condition_in-IsCurrent c cs)
  | inl t ↦ rw t (
      at_once (refreshed e c) (rw (refreshed-kind e c t) (equal_refl c.kind))
        (refreshed-IsCurrent e c))
]
  where
    at_once :
        (d : Condition)
        → equal d.kind c.kind ≡ true
        → IsCurrent c.status c.reason c.message (since_of (some e) c.status c.since) (some d)
        → IsCurrent c.status c.reason c.message
            (since_of (some e) c.status c.since)
            (if equal d.kind c.kind then some d else condition_of c.kind cs)
    at_once d x h = rw x h

-- Setting a condition leaves one condition per type if there was one, does not touch those of other types, and makes its
-- own what was set, where the time of the last transition is that of the condition before if the status is the same, and
-- now if it is not or there was none.
pub set_typed_condition-IsCurrent :
    (now : ℕ) (kind status reason message : Bytes) (st : WorkspaceStatus)
    → EachOnce st.conditions
    → let after = set_typed_condition now kind status reason message st in
      EachOnce after.conditions
      × ((other : Bytes)
          → other ≢ kind
          → condition_of other after.conditions ≡ condition_of other st.conditions)
      × IsCurrent status reason message
          (since_of (condition_of kind st.conditions) status now)
          (condition_of kind after.conditions)
unfolding set_typed_condition
set_typed_condition-IsCurrent now kind status reason message st once =
    let c : Condition = record {
      kind = kind;
      status = status;
      reason = reason;
      message = message;
      since = now;
      generation = 0;
    } in
    (
      set_condition_in-EachOnce c st.conditions once,
      λ other differs. condition_of-other other c st.conditions differs,
      set_condition_in-IsCurrent c st.conditions,
    )
