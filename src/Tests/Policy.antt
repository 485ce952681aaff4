-- ===== src/Tests/Policy.antt =====
-- Policies, a catalog and quotas of a small platform, with natural numbers as quantities.
use waas.Prelude.{
  ℕ, ◌+◌, ◌≡◌, refl, true, false, List, [], ◌∷◌, none, some, Bytes, codes, arith, ltb, equal, less,
  has_prefix, member,
}
use waas.Policy.{
  Identity, PolicySubject, PolicyLimits, WorkspacePolicy, governed, quota_exceeded, resolve,
  matched_via, matched_subject, names, before, insert_policy, sort_policies,
}
use waas.Policy.Resolve.{IsRuling, resolve-IsRuling}
use waas.Policy.Catalog.{WorkspaceImage, find_image, find_exact, find_registry, trim_slash}
use waas.Policy.Catalog.Find.{IsApproving, find_image-IsApproving}
use waas.Policy.Quota.{Quantities, Load}
use waas.Policy.Quota.Limits.{check_limits, count, total}
use waas.Policy.Quota.Lighter.{
  QuantityLaws, now_paused, gone, no_siblings, IsWeight, check_limits-Lighter,
}

abbrev user : Identity
user = record { owner = codes "u-1"; username = codes "ada"; groups = codes "dev" ∷ [] }

abbrev no_limits : PolicyLimits ℕ
no_limits = record {
  max_workspaces = none;
  max_running_workspaces = none;
  per_workspace = none;
  aggregate = none;
}

abbrev policy : Bytes → ℕ → List PolicySubject → WorkspacePolicy ℕ
policy name priority subjects = record {
  name = name;
  priority = priority;
  subjects = subjects;
  images = [];
  limits = no_limits;
  clipboard = none;
  remote_workspaces = false;
  overrides = none;
  max_lifetime = none;
  idle_suspend_after = none;
}

abbrev everyone : WorkspacePolicy ℕ
everyone = policy (codes "default") 0 []

abbrev developers : WorkspacePolicy ℕ
developers = policy (codes "dev") 10 (record { kind = codes "Group"; name = codes "dev" } ∷ [])

developers_rule : resolve (everyone ∷ developers ∷ []) user ≡ governed developers []
unfolding resolve matched_via matched_subject names member equal before insert_policy sort_policies
    less
developers_rule = refl

resolve-IsRuling_example :
    IsRuling (everyone ∷ developers ∷ []) user (resolve (everyone ∷ developers ∷ []) user)
resolve-IsRuling_example = resolve-IsRuling (everyone ∷ developers ∷ []) user

abbrev image : Bytes → Bytes → WorkspaceImage ℕ
image name registry = record {
  name = name;
  image = [];
  registry = registry;
  tag_policy = [];
  protocols = codes "vnc" ∷ [];
  enabled = true;
  allowed_groups = [];
  resources = none;
}

abbrev catalog : List (WorkspaceImage ℕ)
catalog =
    image (codes "hub") (codes "docker.io") ∷ image (codes "kasm") (codes "docker.io/kasmweb/") ∷ []

longest_prefix :
    find_image catalog (codes "docker.io/kasmweb/terminal:1.0")
    ≡ some (image (codes "kasm") (codes "docker.io/kasmweb/"))
unfolding find_image find_exact find_registry trim_slash equal has_prefix
longest_prefix = refl

find_image-IsApproving_example :
    IsApproving catalog
      (codes "docker.io/kasmweb/terminal:1.0")
      (find_image catalog (codes "docker.io/kasmweb/terminal:1.0"))
find_image-IsApproving_example =
    find_image-IsApproving catalog (codes "docker.io/kasmweb/terminal:1.0")

abbrev numbers : Quantities
numbers = record { Q = ℕ; nothing = 0; add = λ a b. a + b; less = ltb; default_home = 10 }

numbers_laws : QuantityLaws numbers
numbers_laws = record {
  le_refl = λ a. ground arith;
  le_trans = λ a b c h k. ground arith;
  add_mono = λ a b c h. ground arith;
  add_grows = λ a b h. ground arith;
}

abbrev load : ℕ → Load ℕ
load n = record { cpu = n; memory = n; storage = n; paused = false; detached = false }

abbrev capped : WorkspacePolicy ℕ
capped = record everyone {
  limits = record no_limits {
    max_workspaces = some 3;
    aggregate = some (record { cpu = some 6; memory = none; storage = some 20 });
  };
}

load-IsWeight : (n : ℕ) → IsWeight numbers numbers_laws (load n)
load-IsWeight n = record { cpu = ground arith; memory = ground arith; storage = ground arith }

fits :
    check_limits numbers (load 2) true (image (codes "hub") []) capped (load 3 ∷ load 1 ∷ []) ≡ none
unfolding check_limits count total
fits = refl

too_many :
    check_limits numbers (load 3) true (image (codes "hub") []) capped (load 3 ∷ load 1 ∷ [])
    ≡ some quota_exceeded
unfolding check_limits count total
too_many = refl

check_limits-Lighter_example :
    check_limits numbers
      (load 2)
      true
      (image (codes "hub") [])
      capped
      (record (load 3) { paused = true } ∷ [])
    ≡ none
check_limits-Lighter_example =
    check_limits-Lighter numbers numbers_laws (load 2) true (image (codes "hub") []) capped
      (now_paused (load 3) (load-IsWeight 3) (gone (load 1) (load-IsWeight 1) no_siblings))
      (omega arith) fits
