-- ===== src/Params.antt =====
-- operator/pkg/params/params.go: the registry of connection parameters and the checks derived from it.
-- A map of values is the list of its entries, in the order in which Go happens to walk it.
pub mod Types
pub mod Listing
pub mod Delegation
pub mod Gates
mod Desktop
mod Other
use waas.Prelude.{
  ℕ, zero, suc, ◌+◌, ◌≡◌, Bool, true, false, not, ◌&&◌, ◌||◌, List, [], ◌∷◌, ◌++◌, Option, none,
  some, Bytes, codes, if◌then◌else◌, ltb, leb, ◌==◌, equal, less, any, keep, has_prefix, length,
  drop,
}
use waas.Guac.Decimal.{ℤ, pos, negsuc, atoi}
use waas.Params.Types.{
  Tier, ui, advanced, platform, Category, all_categories, Kind, text, boolean, integer, choice,
  Param,
}
use waas.Params.Desktop.{shared, vnc, rdp}
use waas.Params.Other.{ssh, platform_owned}

unfoldable pub registry : List Param
registry = shared ++ (vnc ++ (rdp ++ (ssh ++ platform_owned)))

abbrev pub is_in : Bytes → List Bytes → Bool
is_in x ys = any (equal x) ys

abbrev pub applies : Bytes → Param → Bool
applies protocol p = is_in protocol p.protocols

abbrev pub tier_rank : Tier → ℕ
tier_rank ui = 0
tier_rank advanced = 1
tier_rank platform = 2

-- `catRank`: the place in `AllCategories`; the map gives 0 for a category it lacks
unfoldable pub rank_from : ℕ → List Category → Category → ℕ
rank_from n [] c = 0
rank_from n (k ∷ ks) c = let later = rank_from (suc n) ks c in if equal k c then n else later

abbrev pub category_rank : Category → ℕ
category_rank c = rank_from 0 all_categories c

-- the comparison of the sort in `ForProtocol`
unfoldable pub precedes : Param → Param → Bool
precedes p q =
    if not (category_rank p.category == category_rank q.category)
    then ltb (category_rank p.category) (category_rank q.category)
    else if not (tier_rank p.tier == tier_rank q.tier)
    then ltb (tier_rank p.tier) (tier_rank q.tier)
    else less p.name q.name

unfoldable pub insert_param : Param → List Param → List Param
insert_param p [] = p ∷ []
insert_param p (q ∷ qs) =
    let rest = insert_param p qs in if precedes q p then q ∷ rest else p ∷ q ∷ qs

unfoldable pub sort_params : List Param → List Param
sort_params [] = []
sort_params (p ∷ ps) = insert_param p (sort_params ps)

-- `ForProtocol`
unfoldable pub for_protocol : Bytes → List Param
for_protocol protocol = sort_params (keep (applies protocol) registry)

-- `Lookup`
unfoldable pub lookup_in : List Param → Bytes → Bytes → Option Param
lookup_in [] protocol name = none
lookup_in (p ∷ ps) protocol name =
    let rest = lookup_in ps protocol name in
    if equal p.name name && applies protocol p then some p else rest

abbrev pub lookup : Bytes → Bytes → Option Param
lookup protocol name = lookup_in registry protocol name

abbrev pub selector_prefix : Bytes
selector_prefix = codes "cat:"

-- `selectedCategory`
unfoldable pub selected_category : Bytes → Option Category
selected_category entry = if has_prefix entry selector_prefix then some (drop 4 entry) else none

-- `knownCategory`
abbrev pub known_category : Category → Bool
known_category c = is_in c all_categories

-- `add` of `ResolveUserParamNames`: `out` is also the set of the names seen
unfoldable pub add : Bytes → List Bytes → List Bytes
add name out = if is_in name out then out else out ++ name ∷ []

abbrev pub is_delegated : Category → Param → Bool
is_delegated c p = equal p.category c && not (tier_rank p.tier == 2)

unfoldable pub add_category : Category → List Param → List Bytes → List Bytes
add_category c [] out = out
add_category c (p ∷ ps) out = add_category c ps (if is_delegated c p then add p.name out else out)

abbrev pub add_entry : Bytes → Bytes → List Bytes → List Bytes
add_entry protocol entry out = elim (selected_category entry) [
  | none ↦ add entry out
  | some c ↦ add_category c (for_protocol protocol) out
]

unfoldable pub add_entries : Bytes → List Bytes → List Bytes → List Bytes
add_entries protocol [] out = out
add_entries protocol (entry ∷ entries) out =
    add_entries protocol entries (add_entry protocol entry out)

-- `ResolveUserParamNames`
abbrev pub resolve_user_param_names : Bytes → List Bytes → List Bytes
resolve_user_param_names protocol entries = add_entries protocol entries []

pub data Problem : Type 0 where
  not_boolean not_integer too_small too_large not_a_choice not_registered platform_parameter
        not_configurable unknown_category :
      Problem

pub record Violation : Type 0 where
  pub name : Bytes
  pub problem : Problem

abbrev pub below : Option ℕ → ℤ → Bool
below none n = false
below (some least) (pos n) = ltb n least
below (some least) (negsuc n) = true

abbrev pub above : Option ℕ → ℤ → Bool
above none n = false
above (some most) (pos n) = ltb most n
above (some most) (negsuc n) = false

-- what `ValidateValue` finds wrong, by the kind of the parameter
unfoldable pub value_problem : Kind → Bytes → Option Problem
value_problem text value = none
value_problem boolean value =
    if not (equal value (codes "true")) && not (equal value (codes "false"))
    then some not_boolean
    else none
value_problem (integer least most) value = elim (atoi value) [
  | none ↦ some not_integer
  | some n ↦ if below least n then some too_small else if above most n then some too_large else none
]
value_problem (choice values) value = if is_in value values then none else some not_a_choice

abbrev pub violation : Bytes → Option Problem → Option Violation
violation name none = none
violation name (some problem) = some (record { name = name; problem = problem })

-- `ValidateValue`
abbrev pub validate_value : Param → Bytes → Option Violation
validate_value p value = violation p.name (value_problem p.kind value)

abbrev pub or_next : Option Violation → Option Violation → Option Violation
or_next none next = next
or_next (some v) next = some v

-- one round of `ValidateTemplateParams`
unfoldable pub check_locked : Bytes → Bytes → Bytes → Option Violation
check_locked protocol name value = elim (lookup protocol name) [
  | none ↦ violation name (some not_registered)
  | some p ↦
      if tier_rank p.tier == 2
      then violation name (some platform_parameter)
      else validate_value p value
]

-- `ValidateTemplateParams`
unfoldable pub validate_template_params : Bytes → List (Bytes × Bytes) → Option Violation
validate_template_params protocol [] = none
validate_template_params protocol ((name, value) ∷ entries) =
    or_next (check_locked protocol name value) (validate_template_params protocol entries)

-- one round of `ValidateUserParamNames`
unfoldable pub check_name : Bytes → Bytes → Option Violation
check_name protocol name = elim (selected_category name) [
  | some c ↦ if known_category c then none else violation name (some unknown_category)
  | none ↦ elim (lookup protocol name) [
    | none ↦ violation name (some not_registered)
    | some p ↦ if tier_rank p.tier == 2 then violation name (some platform_parameter) else none
  ]
]

-- `ValidateUserParamNames`
unfoldable pub validate_user_param_names : Bytes → List Bytes → Option Violation
validate_user_param_names protocol [] = none
validate_user_param_names protocol (name ∷ names) =
    or_next (check_name protocol name) (validate_user_param_names protocol names)

-- one round of `ValidateUserOverrides`
unfoldable pub check_override : Bytes → List Bytes → Bool → Bytes → Bytes → Option Violation
check_override protocol allow_list admin name value = elim (lookup protocol name) [
  | none ↦ violation name (some not_registered)
  | some p ↦
      if tier_rank p.tier == 2
      then violation name (some platform_parameter)
      else if not admin && not (is_in name allow_list)
      then violation name (some not_configurable)
      else validate_value p value
]

-- `ValidateUserOverrides`
unfoldable pub validate_user_overrides :
    Bytes → List (Bytes × Bytes) → List Bytes → Bool → Option Violation
validate_user_overrides protocol [] allow_list admin = none
validate_user_overrides protocol ((name, value) ∷ entries) allow_list admin =
    or_next (check_override protocol allow_list admin name value)
      (validate_user_overrides protocol entries allow_list admin)
