-- ===== src/Session.antt =====
-- wwt/internal/jwks/jwks.go, the token checks of wwt/internal/proxy/proxy.go, and what both proxies of wwt
-- know of a session. The token library (signatures, algorithm, issuer, audience, expiry) is the record `Jwt`.
pub mod Keys
pub mod Gateway
pub mod Gate
pub mod Kasm
pub mod Desk
use waas.Prelude.{
  ℕ, zero, suc, ◌+◌, ◌-◌, ◌*◌, ◌/◌, ◌%◌, ◌^◌, Bool, true, false, ◌&&◌, ◌||◌, List, [], ◌∷◌, ◌++◌,
  Option, none, some, Bytes, codes, if◌then◌else◌, ltb, leb, ◌==◌, equal,
}

-- `rsa.PublicKey`; an exponent is the bits of an int64
pub record PublicKey : Type 0 where
  pub n : ℕ
  pub e : ℕ

-- one entry of the document
pub record Jwk : Type 0 where
  pub kty : Bytes
  pub kid : Bytes
  pub n : Bytes
  pub e : Bytes

-- `base64.RawURLEncoding`
abbrev pub sextet : ℕ → Option ℕ
sextet c =
    if leb b'A' c && leb c b'Z'
    then some (c - 65)
    else if leb b'a' c && leb c b'z'
    then some (c - 71)
    else if leb b'0' c && leb c b'9'
    then some (c + 4)
    else if c == b'-'
    then some 62
    else if c == b'_'
    then some 63
    else none

unfoldable pub sextets : Bytes → Option (List ℕ)
sextets [] = some []
sextets (c ∷ s) = elim (sextets s) [
  | none ↦ none
  | some rest ↦
      if c == 10 || c == 13
      then some rest
      else elim (sextet c) [ none ↦ none | some v ↦ some (v ∷ rest) ]
]

unfoldable pub octets : List ℕ → Option Bytes
octets [] = some []
octets (a ∷ []) = none
octets (a ∷ b ∷ []) = some ((a * 4 + b / 16) ∷ [])
octets (a ∷ b ∷ c ∷ []) = some ((a * 4 + b / 16) ∷ (b % 16 * 16 + c / 4) ∷ [])
octets (a ∷ b ∷ c ∷ d ∷ s) = elim (octets s) [
  | none ↦ none
  | some rest ↦ some ((a * 4 + b / 16) ∷ (b % 16 * 16 + c / 4) ∷ (c % 4 * 64 + d) ∷ rest)
]

abbrev pub decode64 : Bytes → Option Bytes
decode64 s = elim (sextets s) [ none ↦ none | some vs ↦ octets vs ]

-- `big.Int.SetBytes`
unfoldable pub big_endian : ℕ → Bytes → ℕ
big_endian n [] = n
big_endian n (b ∷ s) = big_endian (n * 256 + b) s

abbrev pub KeyMap : Type 0
KeyMap = List (Bytes × PublicKey)

-- a map with the last entry of a key first
unfoldable pub key_in : KeyMap → Bytes → Option PublicKey
key_in [] kid = none
key_in ((k, key) ∷ keys) kid = let rest = key_in keys kid in if equal k kid then some key else rest

abbrev pub with_key : Bytes → Option Bytes → Option Bytes → KeyMap → Option KeyMap
with_key kid none e keys = none
with_key kid (some n) none keys = none
with_key kid (some n) (some e) keys =
    some ((kid, record { n = big_endian 0 n; e = big_endian 0 e % 2 ^ 64 }) ∷ keys)

-- the loop of `refreshLocked` over the entries; none is an error of the decoding
unfoldable pub collect : List Jwk → KeyMap → Option KeyMap
collect [] keys = some keys
collect (k ∷ ks) keys =
    let skipped = collect ks keys in
    let taken : Option KeyMap = elim (with_key k.kid (decode64 k.n) (decode64 k.e) keys) [
      | none ↦ none
      | some more ↦ collect ks more
    ] in
    if equal k.kty (codes "RSA") then taken else skipped

-- what a request of the document brings: no answer, or a status and the entries, if the body decodes
pub data Fetched : Type 0 where
  no_answer : Fetched
  answered : ℕ → Option (List Jwk) → Fetched

pub record Client : Type 0 where
  pub keys : KeyMap
  pub fetched : ℕ

-- five minutes, in nanoseconds
abbrev pub cache_ttl : ℕ
cache_ttl = 300000000000

abbrev pub document : Fetched → Option KeyMap
document no_answer = none
document (answered status none) = none
document (answered status (some ks)) =
    let keys = collect ks [] in if status == 200 then keys else none

-- `refreshLocked`; none is an error
abbrev pub refresh_locked : Option KeyMap → ℕ → Option Client
refresh_locked none now = none
refresh_locked (some keys) now = some (record { keys = keys; fetched = now })

abbrev pub after_refresh : Option Client → Client → Bytes → Client × Option PublicKey
after_refresh none c kid = (c, key_in c.keys kid)
after_refresh (some fresh) c kid = (fresh, key_in fresh.keys kid)

abbrev pub is_fresh : ℕ → Client → Bool
is_fresh now c = ltb (now - c.fetched) cache_ttl

abbrev pub if_fresh :
    Bool → Option PublicKey → Client → Client × Option PublicKey → Client × Option PublicKey
if_fresh true (some key) c refreshed = (c, some key)
if_fresh true none c refreshed = refreshed
if_fresh false o c refreshed = refreshed

-- `Key`: at a time, with what a request would bring
unfoldable pub key : Fetched → ℕ → Bytes → Client → Client × Option PublicKey
key response now kid c =
    if_fresh (is_fresh now c) (key_in c.keys kid) c
      (after_refresh (refresh_locked (document response) now) c kid)

-- `ConnectionClaims`
pub record ConnectionClaims : Type 0 where
  pub session_id : Bytes
  pub workspace_id : Bytes
  pub copy : Bool
  pub paste : Bool

-- `ParseUnverified`, for the key id in the header (empty if there is none), and `ParseWithClaims` with the key,
-- the only algorithm, the issuer and the audience that it must have
pub record Jwt : Type 0 where
  pub parse_unverified : Bytes → Option Bytes
  pub parse_with_claims : PublicKey → Bytes → Bytes → Bytes → Bytes → Option ConnectionClaims

module _ (jwt : Jwt) where
  -- `VerifyConnectionToken`
  abbrev pub verify_connection_token : Bytes → Bytes → PublicKey → Option ConnectionClaims
  verify_connection_token token issuer public =
      jwt.parse_with_claims public (codes "RS256") issuer (codes "waas-connection") token

  abbrev pub verified : Bytes → Bytes → Client × Option PublicKey → Client × Option ConnectionClaims
  verified token issuer (c, none) = (c, none)
  verified token issuer (c, some public) = (c, verify_connection_token token issuer public)

  abbrev pub with_kid :
      Option Bytes → Bytes → Bytes → Fetched → ℕ → Client → Client × Option ConnectionClaims
  with_kid none token issuer response now c = (c, none)
  with_kid (some kid) token issuer response now c = verified token issuer (key response now kid c)

  -- `validateConnectionToken`
  unfoldable pub validate_connection_token :
      Bytes → Bytes → Fetched → ℕ → Client → Client × Option ConnectionClaims
  validate_connection_token token issuer response now c =
      let checked = with_kid (jwt.parse_unverified token) token issuer response now c in
      if equal token [] then (c, none) else checked

-- `ConnectionInfo`; a port is an int32 and never negative
pub record ConnectionInfo : Type 0 where
  pub protocol : Bytes
  pub hostname : Bytes
  pub port : ℕ
  pub username : Bytes
  pub password : Bytes
  pub params : Bytes → Option Bytes
