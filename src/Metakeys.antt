-- ===== src/Metakeys.antt =====
-- operator/pkg/metakeys/metakeys.go: the denylist of label and annotation keys that users may set.
-- A Go map is the list of its entries, in the order of one iteration; `put` makes an entry hide an
-- older one. An absent map reads like an empty one.
pub mod Reserved
pub mod Merge
use waas.Prelude.{
  ℕ, ◌-◌, ◌≡◌, Bool, true, false, ◌&&◌, ◌||◌, List, [], ◌∷◌, ◌++◌, Option, none, some, Bytes, codes,
  if◌then◌else◌, leb, ◌==◌, equal, length, drop, any,
}

pub data KeyError : Type 0 where
  empty_key reserved_key : KeyError

abbrev pub denied_domains : List Bytes
denied_domains =
    codes "kubernetes.io"
    ∷ codes "k8s.io"
    ∷ codes "xorhub.io"
    ∷ codes "argoproj.io"
    ∷ codes "istio.io"
    ∷ codes "linkerd.io"
    ∷ codes "vault.hashicorp.com"
    ∷ codes "cilium.io"
    ∷ codes "openshift.io"
    ∷ []

-- `deniedBare[key]`: its one entry is false
abbrev denied_bare : Bytes → Bool
denied_bare key = equal key (codes "name") && false

-- `strings.Cut(key, "/")`: what stands before the slash, if there is one
unfoldable pub cut : Bytes → Option Bytes
cut [] = none
cut (c ∷ key) =
    let rest = cut key in
    if c == b'/' then some [] else elim rest [ none ↦ none | some domain ↦ some (c ∷ domain) ]

-- `strings.HasSuffix`
unfoldable pub has_suffix : Bytes → Bytes → Bool
has_suffix s p = leb (length p) (length s) && equal (drop (length s - length p) s) p

abbrev pub is_denied : Bytes → Bytes → Bool
is_denied domain denied = equal domain denied || has_suffix domain (b'.' ∷ denied)

abbrev pub check_domain : Bytes → Option Bytes → Option KeyError
check_domain key none = if denied_bare key then some reserved_key else none
check_domain key (some domain) =
    if any (is_denied domain) denied_domains then some reserved_key else none

-- `CheckKey`; `none` is no error
unfoldable pub check_key : Bytes → Option KeyError
check_key [] = some empty_key
check_key (c ∷ key) = check_domain (c ∷ key) (cut (c ∷ key))

abbrev pub Meta : Type 0
Meta = List (Bytes × Bytes)

-- `Check`
unfoldable pub check : Meta → Option KeyError
check [] = none
check ((k, v) ∷ entries) =
    let rest = check entries in elim (check_key k) [ none ↦ rest | some e ↦ some e ]

abbrev pub is_fine : Option KeyError → Bool
is_fine none = true
is_fine (some e) = false

abbrev pub put : Bytes → Bytes → Meta → Meta
put k v out = (k, v) ∷ out

-- the two loops of `MergeAllowed`
unfoldable pub copy_allowed : Meta → Meta → Meta
copy_allowed [] out = out
copy_allowed ((k, v) ∷ user) out =
    copy_allowed user (if is_fine (check_key k) then put k v out else out)

unfoldable pub copy_all : Meta → Meta → Meta
copy_all [] out = out
copy_all ((k, v) ∷ platform) out = copy_all platform (put k v out)

-- `MergeAllowed`
unfoldable pub merge_allowed : Meta → Meta → Meta
merge_allowed user platform = copy_all platform (copy_allowed user [])
