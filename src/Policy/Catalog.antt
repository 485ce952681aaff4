-- ===== src/Policy/Catalog.antt =====
-- operator/pkg/policy/policy.go: the image catalog, from `ImageAllowed` to `CheckTagDiscipline`, and
-- `CheckProtocol`. A tag policy is its string, as the switch of the code reads it.
pub mod Find
pub mod Tag
pub mod Allowed
use waas.Prelude.{
  ℕ, zero, suc, ◌+◌, ◌≡◌, Bool, true, false, not, ◌&&◌, ◌||◌, List, [], ◌∷◌, ◌++◌, Option, none,
  some, Bytes, codes, if◌then◌else◌, ltb, ◌==◌, equal, member, has_prefix, contains, length, drop,
  any, keep,
}
use waas.Policy.{
  Reason, image_disabled, image_not_allowed, image_tag_policy, protocol_mismatch, Identity,
  WorkspacePolicy,
}

pub record ComputeSize (Q : Type 0) : Type 0 where
  pub cpu : Option Q
  pub memory : Option Q

pub record ImageResources (Q : Type 0) : Type 0 where
  pub min : Option (ComputeSize Q)
  pub max : Option (ComputeSize Q)
  pub default : Option (ComputeSize Q)

pub record WorkspaceImage (Q : Type 0) : Type 0 where
  pub name : Bytes
  pub image : Bytes
  pub registry : Bytes
  pub tag_policy : Bytes
  pub protocols : List Bytes
  pub enabled : Bool
  pub allowed_groups : List Bytes
  pub resources : Option (ImageResources Q)

abbrev pub is_nil : List Bytes → Bool
is_nil [] = true
is_nil (x ∷ xs) = false

-- `strings.TrimSuffix(s, "/")`
unfoldable pub trim_slash : Bytes → Bytes
trim_slash [] = []
trim_slash (c ∷ []) = if c == b'/' then [] else c ∷ []
trim_slash (c ∷ d ∷ s) = c ∷ trim_slash (d ∷ s)

-- `strings.LastIndex(s, c) + 1`
unfoldable pub last_end : ℕ → Bytes → ℕ
last_end c [] = 0
last_end c (x ∷ xs) = let r = last_end c xs in if ltb 0 r then suc r else if x == c then 1 else 0

-- `if at := strings.Index(ref, "@"); at >= 0 { ref = ref[:at] }`
unfoldable pub before_at : Bytes → Bytes
before_at [] = []
before_at (c ∷ ref) = let rest = before_at ref in if c == b'@' then [] else c ∷ rest

abbrev pub tag_of : Bytes → Bytes
tag_of ref =
    if ltb (last_end b'/' ref) (last_end b':' ref) then drop (last_end b':' ref) ref else []

-- `imageTag`
unfoldable pub image_tag : Bytes → Bytes
image_tag ref = tag_of (before_at ref)

abbrev pub is_allowed : Option Reason → Bool
is_allowed none = true
is_allowed (some reason) = false

unfoldable pub check_tag : Bytes → Option Reason
check_tag ref =
    if equal (image_tag ref) [] || equal (image_tag ref) (codes "latest")
    then some image_tag_policy
    else none

module _ {Q : Type 0} where
  -- `ImageAllowed`; `none` is no denial
  unfoldable pub image_allowed : WorkspaceImage Q → WorkspacePolicy Q → Identity → Option Reason
  image_allowed img pol id =
      if not img.enabled
      then some image_disabled
      else if not (is_nil img.allowed_groups) && not (any (member id.groups) img.allowed_groups)
      then some image_not_allowed
      else if not (is_nil pol.images) && not (member pol.images img.name)
      then some image_not_allowed
      else none

  -- `AllowedImages`
  unfoldable pub allowed_images :
      List (WorkspaceImage Q) → WorkspacePolicy Q → Identity → List (WorkspaceImage Q)
  allowed_images catalog pol id = keep (λ i. is_allowed (image_allowed i pol id)) catalog

  abbrev pub is_exact : Bytes → WorkspaceImage Q → Bool
  is_exact ref i = not (equal i.image []) && equal i.image ref

  abbrev pub prefix_of : WorkspaceImage Q → Bytes
  prefix_of i = trim_slash i.registry

  abbrev pub covers : Bytes → WorkspaceImage Q → Bool
  covers ref i = not (equal (prefix_of i) []) && has_prefix ref (prefix_of i ++ codes "/")

  -- the first loop of `FindImage`
  unfoldable pub find_exact : Bytes → List (WorkspaceImage Q) → Option (WorkspaceImage Q)
  find_exact ref [] = none
  find_exact ref (i ∷ catalog) =
      let rest = find_exact ref catalog in if is_exact ref i then some i else rest

  abbrev pub longer : WorkspaceImage Q → Option (WorkspaceImage Q) → Option (WorkspaceImage Q)
  longer i none = some i
  longer i (some best) =
      if ltb (length (prefix_of best)) (length (prefix_of i)) then some i else some best

  -- the second loop
  unfoldable pub find_registry :
      Bytes → Option (WorkspaceImage Q) → List (WorkspaceImage Q) → Option (WorkspaceImage Q)
  find_registry ref best [] = best
  find_registry ref best (i ∷ catalog) =
      find_registry ref (if covers ref i then longer i best else best) catalog

  abbrev pub exact_or :
      Option (WorkspaceImage Q) → Option (WorkspaceImage Q) → Option (WorkspaceImage Q)
  exact_or none other = other
  exact_or (some i) other = some i

  -- `FindImage`
  unfoldable pub find_image : List (WorkspaceImage Q) → Bytes → Option (WorkspaceImage Q)
  find_image catalog ref = exact_or (find_exact ref catalog) (find_registry ref none catalog)

  unfoldable pub tag_policy_of : WorkspaceImage Q → Bytes
  tag_policy_of i =
      if not (equal i.tag_policy [])
      then i.tag_policy
      else if not (equal i.image [])
      then codes "any"
      else codes "tag"

  -- `CheckTagDiscipline`
  unfoldable pub check_tag_discipline : WorkspaceImage Q → Bytes → Option Reason
  check_tag_discipline i ref =
      let has_digest = contains ref (codes "@sha256:") in
      if equal (tag_policy_of i) (codes "any")
      then none
      else if equal (tag_policy_of i) (codes "digest")
      then (if has_digest then none else some image_tag_policy)
      else (if has_digest then none else check_tag ref)

  -- the loop of `CheckProtocol` over the names of the template's effective protocols
  unfoldable pub check_protocol : List Bytes → WorkspaceImage Q → Option Reason
  check_protocol [] img = none
  check_protocol (p ∷ protocols) img =
      let rest = check_protocol protocols img in
      if member img.protocols p then rest else some protocol_mismatch
