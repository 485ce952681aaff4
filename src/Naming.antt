-- ===== src/Naming.antt =====
-- operator/pkg/naming/naming.go: DNS-1123 labels from the names of users, and the namespace patterns.
-- Unicode normalisation, Go's character tables and SHA-256 are the parameter `Tables`.
pub mod Label
pub mod Pattern
pub mod Personal
use waas.Prelude.{
  ℕ, zero, suc, ◌+◌, ◌-◌, ◌/◌, ◌%◌, ◌≡◌, Bool, true, false, not, ◌&&◌, ◌||◌, List, [], ◌∷◌, ◌++◌,
  Option, none, some, Bytes, codes, if◌then◌else◌, ltb, leb, ◌==◌, equal, length, take, has_prefix,
}

-- `norm.NFKD`, `unicode.Is(unicode.Mn, r)`, `unicode.ToLower` and `sha256.Sum256`
pub record Tables : Type 0 where
  pub nfkd : Bytes → List ℕ
  pub is_mark : ℕ → Bool
  pub to_lower : ℕ → ℕ
  pub digest : Bytes → Bytes

abbrev pub max_label : ℕ
max_label = 63

abbrev pub is_alnum : ℕ → Bool
is_alnum c = (leb b'a' c && leb c b'z') || (leb b'0' c && leb c b'9')

-- `strings.TrimRight(s, "-")`
abbrev pub unless_dash : ℕ → Bytes → Bytes
unless_dash c [] = if c == b'-' then [] else c ∷ []
unless_dash c (d ∷ s) = c ∷ d ∷ s

unfoldable pub trim_dashes : Bytes → Bytes
trim_dashes [] = []
trim_dashes (c ∷ s) = unless_dash c (trim_dashes s)

-- `hex.EncodeToString`
abbrev hex_digit : ℕ → ℕ
hex_digit n = if ltb n 10 then 48 + n else 87 + n

unfoldable pub hex : Bytes → Bytes
hex [] = []
hex (b ∷ s) = hex_digit (b / 16 % 16) ∷ hex_digit (b % 16) ∷ hex s

pub data LabelError : Type 0 where
  empty_name too_long bad_label : LabelError

-- `ValidateLabel` in its loop at byte `i` of `n`: a byte of a longer character is never allowed.
abbrev label_char : ℕ → ℕ → ℕ → Bool
label_char n i c = is_alnum c || (c == b'-' && ltb 0 i && ltb (i + 1) n)

unfoldable pub label_from : ℕ → ℕ → Bytes → Bool
label_from n i [] = true
label_from n i (c ∷ s) = label_char n i c && label_from n (i + 1) s

unfoldable pub validate_label : Bytes → Option LabelError
validate_label s =
    if equal s []
    then some empty_name
    else if ltb max_label (length s)
    then some too_long
    else if label_from (length s) 0 s
    then none
    else some bad_label

pub data PatternError : Type 0 where
  unknown_placeholder unbalanced_braces no_room no_identity : PatternError
  bad_name : LabelError → PatternError

pub data Resolved : Type 0 where
  name : Bytes → Resolved
  failed : PatternError → Resolved

-- A piece of a pattern: a placeholder, with what stands between its braces, or one other character.
pub data Piece : Type 0 where
  char : ℕ → Piece
  token : Bytes → Piece

abbrev pub chars : Bytes → List Piece → List Piece
chars [] rest = rest
chars (c ∷ s) rest = char c ∷ chars s rest

-- `tokenRE`, the expression `\{[^{}]*\}`: outside of braces, and behind an opening one.
unfoldable pub pieces_from : Option Bytes → Bytes → List Piece
pieces_from none [] = []
pieces_from (some seen) [] = char b'{' ∷ chars seen []
pieces_from none (c ∷ s) =
    let inside = pieces_from (some []) s in
    let outside = pieces_from none s in if c == b'{' then inside else char c ∷ outside
pieces_from (some seen) (c ∷ s) =
    let again = pieces_from (some []) s in
    let outside = pieces_from none s in
    let inside = pieces_from (some (seen ++ c ∷ [])) s in
    if c == b'}'
    then token seen ∷ outside
    else if c == b'{'
    then char b'{' ∷ chars seen again
    else inside

abbrev pub pieces : Bytes → List Piece
pieces pattern = pieces_from none pattern

pub record PatternValues : Type 0 where
  pub user : Bytes
  pub user_id : Bytes
  pub workspace : Bytes
  pub template_name : Bytes
  pub os : Bytes

-- `byToken`
unfoldable pub by_token : PatternValues → Bytes → Option Bytes
by_token v t =
    if equal t (codes "user")
    then some v.user
    else if equal t (codes "workspace")
    then some v.workspace
    else if equal t (codes "templateName")
    then some v.template_name
    else if equal t (codes "os")
    then some v.os
    else none

abbrev is_known : PatternValues → Bytes → Bool
is_known v t = elim (by_token v t) [ none ↦ false | some raw ↦ true ]

unfoldable pub all_known : PatternValues → List Piece → Bool
all_known v [] = true
all_known v (char c ∷ ps) = all_known v ps
all_known v (token t ∷ ps) = is_known v t && all_known v ps

unfoldable pub has_brace : List Piece → Bool
has_brace [] = false
has_brace (char c ∷ ps) = c == b'{' || c == b'}' || has_brace ps
has_brace (token t ∷ ps) = has_brace ps

unfoldable pub literal_length : List Piece → ℕ
literal_length [] = 0
literal_length (char c ∷ ps) = suc (literal_length ps)
literal_length (token t ∷ ps) = literal_length ps

unfoldable pub token_count : List Piece → ℕ
token_count [] = 0
token_count (char c ∷ ps) = token_count ps
token_count (token t ∷ ps) = suc (token_count ps)

abbrev pub divide : ℕ → ℕ → ℕ
divide room zero = max_label
divide room (suc n) = room / suc n

-- `(MaxLabel - literalLen) / len(tokens)`; a negative quotient is below one, as 0 is
abbrev pub budget_of : List Piece → ℕ
budget_of ps = divide (max_label - literal_length ps) (token_count ps)

abbrev pub builtin_pattern : Bytes
builtin_pattern = codes "waas-{user}"

-- `EffectivePattern`
unfoldable pub effective_pattern : Bytes → Bytes → Bytes
effective_pattern template global =
    if not (equal template [])
    then template
    else if not (equal global [])
    then global
    else builtin_pattern

-- `strings.Split(s, "-")`: the first part, and the last one if there are more
unfoldable pub first_part : Bytes → Bytes
first_part [] = []
first_part (c ∷ s) = let rest = first_part s in if c == b'-' then [] else c ∷ rest

unfoldable pub last_part : Bytes → Option Bytes
last_part [] = none
last_part (c ∷ s) = elim (last_part s) [
  | some part ↦ some part
  | none ↦ if c == b'-' then some s else none
]

module _ (tables : Tables) where
  open tables use {nfkd, is_mark, to_lower, digest}

  -- the loop of `normalizeLabel`: has anything been written, and is a dash due?
  unfoldable pub letters_from : Bool → Bool → List ℕ → Bytes
  letters_from started pending [] = []
  letters_from started pending (r ∷ rs) =
      let skipped = letters_from started pending rs in
      let next = letters_from true false rs in
      let dashed = letters_from started true rs in
      if is_mark r
      then skipped
      else if is_alnum (to_lower r)
      then (if pending && started then b'-' ∷ to_lower r ∷ next else to_lower r ∷ next)
      else dashed

  abbrev pub in_limit : ℕ → ℕ
  in_limit limit = if limit == 0 || ltb max_label limit then max_label else limit

  -- `normalizeLabel`
  unfoldable pub normalize_label : Bytes → ℕ → Bytes
  normalize_label s limit =
      let out = letters_from false false (nfkd s) in
      if ltb (in_limit limit) (length out) then trim_dashes (take (in_limit limit) out) else out

  abbrev pub or_x : Bytes → Bytes
  or_x [] = codes "x"
  or_x (c ∷ s) = c ∷ s

  -- `SanitizeWithLimit`
  unfoldable pub sanitize_with_limit : Bytes → ℕ → Bytes
  sanitize_with_limit s limit = or_x (normalize_label s limit)

  -- `Sanitize`
  abbrev pub sanitize : Bytes → Bytes
  sanitize s = sanitize_with_limit s max_label

  -- `Suffix`
  unfoldable pub suffix : Bytes → Bytes
  suffix raw = b'-' ∷ take 5 (hex (digest raw))

  -- `IdentitySegment`
  unfoldable pub identity_segment : Bytes → Bytes
  identity_segment user_id = sanitize (elim (last_part user_id) [
    | none ↦ first_part user_id
    | some part ↦ first_part user_id ++ b'-' ∷ part
  ])

  -- `fitSegment`
  unfoldable pub fit_segment : Bytes → ℕ → Bytes
  fit_segment raw budget =
      let head = budget - length (suffix raw) in
      if leb (length (sanitize raw)) budget
      then sanitize raw
      else sanitize_with_limit raw (if ltb head 1 then 1 else head) ++ suffix raw

  -- what a placeholder is replaced by; none is the error of the replacement
  unfoldable pub expand_token : PatternValues → ℕ → Bytes → Option Bytes
  expand_token v budget t = elim (by_token v t) [
    | none ↦ some (fit_segment [] budget)
    | some raw ↦
        if equal t (codes "user") && equal (normalize_label raw max_label) []
        then (if equal v.user_id []
            then none
            else some (fit_segment (identity_segment v.user_id) budget))
        else some (fit_segment raw budget)
  ]

  abbrev pub prepend : Option Bytes → Option Bytes → Option Bytes
  prepend none rest = none
  prepend (some s) none = none
  prepend (some s) (some out) = some (s ++ out)

  unfoldable pub expand : PatternValues → ℕ → List Piece → Option Bytes
  expand v budget [] = some []
  expand v budget (char c ∷ ps) = prepend (some (c ∷ [])) (expand v budget ps)
  expand v budget (token t ∷ ps) = prepend (expand_token v budget t) (expand v budget ps)

  abbrev pub validated : Option Bytes → Resolved
  validated none = failed no_identity
  validated (some out) = elim (validate_label out) [
    | none ↦ name out
    | some e ↦ failed (bad_name e)
  ]

  -- `ResolveNamespace` on the pieces of a pattern
  unfoldable pub resolve_pieces : List Piece → PatternValues → Resolved
  resolve_pieces ps v =
      if not (all_known v ps)
      then failed unknown_placeholder
      else if has_brace ps
      then failed unbalanced_braces
      else if ltb (budget_of ps) 1
      then failed no_room
      else validated (expand v (budget_of ps) ps)

  -- `ResolveNamespace`
  unfoldable pub resolve_namespace : Bytes → PatternValues → Resolved
  resolve_namespace [] v = name []
  resolve_namespace (c ∷ pattern) v = resolve_pieces (pieces (c ∷ pattern)) v

  abbrev personal_values : Bytes → Bytes → PatternValues
  personal_values username user_id = record {
    user = username;
    user_id = user_id;
    workspace = [];
    template_name = [];
    os = [];
  }

  abbrev name_or_empty : Resolved → Bytes
  name_or_empty (name ns) = ns
  name_or_empty (failed e) = []

  -- `PersonalNamespace`
  unfoldable pub personal_namespace : Bytes → Bytes → Bytes
  personal_namespace username user_id =
      name_or_empty (resolve_namespace builtin_pattern (personal_values username user_id))

  -- `IsPersonalNamespaceOf`
  unfoldable pub is_personal_namespace_of : Bytes → Bytes → Bytes → Bool
  is_personal_namespace_of username user_id ns =
      let own = personal_namespace username user_id in
      if equal own [] || equal ns []
      then false
      else equal ns own || has_prefix ns (own ++ codes "-")

  -- `ValidatePattern`
  unfoldable pub validate_pattern : Bytes → Option PatternError
  validate_pattern pattern =
      elim (resolve_namespace pattern (record {
        user = codes "sample-user";
        user_id = [];
        workspace = codes "sample-workspace";
        template_name = codes "sample-template";
        os = codes "linux";
      })) [ name ns ↦ none | failed e ↦ some e ]
