-- ===== src/Params/Types.antt =====
-- The types of operator/pkg/params/params.go.
use waas.Prelude.{ℕ, Bool, List, [], ◌∷◌, Option, Bytes, codes}

pub data Tier : Type 0 where
  ui advanced platform : Tier

-- `Category` is a string: a selector may name one that there is not.
abbrev pub Category : Type 0
Category = Bytes

abbrev pub display : Category
display = codes "display"

abbrev pub audio : Category
audio = codes "audio"

abbrev pub input : Category
input = codes "input"

abbrev pub clipboard : Category
clipboard = codes "clipboard"

abbrev pub session : Category
session = codes "session"

abbrev pub security : Category
security = codes "security"

abbrev pub connection : Category
connection = codes "connection"

-- `AllCategories`
abbrev pub all_categories : List Category
all_categories = display ∷ audio ∷ input ∷ clipboard ∷ session ∷ security ∷ connection ∷ []

-- `Kind`, with the bounds of an integer and the values of an enumeration; no bound in the table is negative
pub data Kind : Type 0 where
  text boolean : Kind
  integer : Option ℕ → Option ℕ → Kind
  choice : List Bytes → Kind

-- `Param`, less its description
pub record Param : Type 0 where
  pub name : Bytes
  pub protocols : List Bytes
  pub kind : Kind
  pub default_value : Bytes
  pub tier : Tier
  pub category : Category
  pub live : Bool

abbrev pub entry : Bytes → List Bytes → Kind → Bytes → Tier → Category → Bool → Param
entry n ps k d t c l = record {
  name = n;
  protocols = ps;
  kind = k;
  default_value = d;
  tier = t;
  category = c;
  live = l;
}

abbrev pub all_guacd : List Bytes
all_guacd = codes "vnc" ∷ codes "rdp" ∷ codes "ssh" ∷ []
