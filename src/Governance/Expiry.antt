-- ===== src/Governance/Expiry.antt =====
-- When a workspace is deleted for its age.
use waas.Prelude.{
  ℕ, ◌+◌, ◌-◌, ◌≤◌, ◌<◌, ◌≡◌, refl, ◌⊎◌, inl, inr, true, false, List, [], ◌∷◌, Option, none, some,
  if◌then◌else◌, arith, ltb, ◌==◌, Bool-cases,
}
use waas.Policy.{WorkspacePolicy, resolve}
use waas.Policy.Objects.{Workspace, effective_target_namespace}
use waas.Policy.Overrides.{identity_of}
use waas.Governance.{
  Lifetime, lives, expires_in, deletion_failed, deleted, Deletion, Deleted, home_volume, workspace,
  fails, home_pvc_name, max_lifetime_of, expire, live_until, enforce_lifetime,
}

module _ {Q : Type 0} where
  -- The workspace is as old as the policy that governs it allows.
  pub record IsExpired (policies : List (WorkspacePolicy Q)) (now : ℕ) (ws : Workspace Q)
      : Type 0 where
    pub ttl : ℕ
    pub allowed : max_lifetime_of (resolve policies (identity_of ws)) ≡ some ttl
    pub positive : 0 < ttl
    pub reached : ws.created + ttl ≤ now

  -- what was called, and in which order
  abbrev pub Orderly : Deletion → Deletion → Workspace Q → Lifetime × List Deleted → Type 0
  Orderly home own ws (out, calls) =
      ((fails home ≡ true)
        × (out ≡ deletion_failed)
        × (calls ≡ home_volume (effective_target_namespace ws) (home_pvc_name ws) ∷ []))
      ⊎ ((fails home ≡ false)
          × (out ≡ (if fails own then deletion_failed else deleted))
          × (calls
              ≡ home_volume (effective_target_namespace ws) (home_pvc_name ws)
                ∷ workspace ws.name
                ∷ []))

  expire-Orderly :
      (home own : Deletion) (ws : Workspace Q) → Orderly home own ws (expire home own ws)
  expire-Orderly home own ws = elim (Bool-cases (fails home)) [
    | inl e ↦ rw e (inl (refl, refl, refl))
    | inr e ↦ rw e (inr (refl, refl, refl))
  ]

  -- `enforceLifetime`, if it can list the policies, deletes nothing before a workspace has reached the maximal
  -- lifetime of the policy that governs it, and from then on it first deletes the home volume and then, unless
  -- that failed, the workspace.
  pub enforce_lifetime-IsExpired :
      (policies : List (WorkspacePolicy Q)) (now : ℕ) (home own : Deletion) (ws : Workspace Q)
      → (out : Lifetime) × (calls : List Deleted) × (enforce_lifetime
            (some policies)
            now
            home
            own
            ws
          ≡ some (out, calls))
        × (((calls ≡ []) × (IsExpired policies now ws → ⊥))
            ⊎ (IsExpired policies now ws × Orderly home own ws (out, calls)))
  unfolding enforce_lifetime
  enforce_lifetime-IsExpired policies now home own ws =
      by_limit (max_lifetime_of (resolve policies (identity_of ws))) refl
    where
      by_limit :
          (o : Option ℕ)
          → max_lifetime_of (resolve policies (identity_of ws)) ≡ o
          → (out : Lifetime) × (calls : List Deleted) × ((elim o
                as (λ _. Option (Lifetime × List Deleted)) [
                  | none ↦ some (lives, [])
                  | some ttl ↦ some (live_until ttl now home own ws)
                ])
              ≡ some (out, calls))
            × (((calls ≡ []) × (IsExpired policies now ws → ⊥))
                ⊎ (IsExpired policies now ws × Orderly home own ws (out, calls)))
      by_limit none e = (lives, [], refl, inl (refl, λ x. let a = x.allowed in cc))
      by_limit (some ttl) e = elim (Bool-cases (ttl == 0)) [
        | inl z ↦ rw z (
          lives,
          [],
          refl,
          inl (
            refl,
            λ x.
                let a = x.allowed in
                let same : x.ttl ≡ ttl = cc in let p = x.positive in ground arith,
          ),
        )
        | inr z ↦ rw z (elim (Bool-cases (ltb now (ws.created + ttl))) [
          | inl young ↦ rw young (
            expires_in (ws.created + ttl - now),
            [],
            refl,
            inl (
              refl,
              λ x.
                  let a = x.allowed in
                  let same : x.ttl ≡ ttl = cc in let r = x.reached in ground arith,
            ),
          )
          | inr old ↦ rw old (
            (expire home own ws).0,
            (expire home own ws).1,
            refl,
            inr (
              record { ttl = ttl; allowed = e; positive = ground arith; reached = ground arith },
              expire-Orderly home own ws,
            ),
          )
        ])
      ]
