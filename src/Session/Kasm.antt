-- ===== src/Session/Kasm.antt =====
-- wwt/internal/kasm/kasm.go: the reverse proxy of KasmVNC desktops. A request is handled at one instant; the
-- effects are listed in their order. `strings.ToLower` is an argument, as Go's tables of letters are.
use waas.Prelude.{
  ℕ, ◌+◌, Bool, true, false, not, ◌||◌, List, [], ◌∷◌, ◌++◌, Option, none, some, Bytes, codes,
  if◌then◌else◌, ltb, ◌==◌, equal, has_prefix, contains, drop,
}
use waas.Metakeys.{Meta}
use waas.Metakeys.Merge.{lookup}
use waas.Guac.Decimal.{decimal}
use waas.Session.{Fetched, Client, ConnectionClaims, Jwt, validate_connection_token, ConnectionInfo}

-- `cachedInfo`
pub record CachedInfo : Type 0 where
  pub info : ConnectionInfo
  pub expires : ℕ

-- `Handler`, with the newest entry of a session first
pub record Handler : Type 0 where
  pub keys : Client
  pub infos : List (Bytes × CachedInfo)

-- twenty seconds, in nanoseconds
abbrev pub info_ttl : ℕ
info_ttl = 20000000000

abbrev pub route_prefix : Bytes
route_prefix = codes "/kasm/"

-- the parts of a request that are read; `is_websocket` is the test of the Upgrade header
pub record Request : Type 0 where
  pub path : Bytes
  pub query : Meta
  pub cookie : Option Bytes
  pub origin : Bytes
  pub tls : Bool
  pub forwarded_proto : Bytes
  pub is_websocket : Bool

-- the request that goes to the desktop
pub record Outgoing : Type 0 where
  pub host : Bytes
  pub path : Bytes
  pub query : Meta
  pub cookie : Option Bytes
  pub username : Bytes
  pub password : Bytes
  pub origin : Bytes

pub data Effect : Type 0 where
  responded : ℕ → Effect
  asked : Bytes → Effect
  cookie_set : Bytes → Bytes → Bool → Effect
  tunnel_up tunnel_down : Effect
  proxied : Outgoing → Effect
  ended : Bytes → Effect

-- `strings.Cut(p, "/")`, less whether it was found
unfoldable pub before_slash : Bytes → Bytes
before_slash [] = []
before_slash (c ∷ s) = let rest = before_slash s in if c == b'/' then [] else c ∷ rest

unfoldable pub behind_slash : Bytes → Bytes
behind_slash [] = []
behind_slash (c ∷ s) = let rest = behind_slash s in if c == b'/' then s else rest

abbrev pub if_named : Bytes → Bytes → Option (Bytes × Bytes)
if_named [] rest = none
if_named (c ∷ sid) rest = some (c ∷ sid, b'/' ∷ rest)

-- `splitPath`
unfoldable pub split_path : Bytes → Option (Bytes × Bytes)
split_path p =
    if has_prefix p route_prefix
    then if_named (before_slash (drop 6 p)) (behind_slash (drop 6 p))
    else none

-- the elements of a path
abbrev pub onto_first : ℕ → List Bytes → List Bytes
onto_first c [] = (c ∷ []) ∷ []
onto_first c (part ∷ parts) = (c ∷ part) ∷ parts

unfoldable pub elements : Bytes → List Bytes
elements [] = [] ∷ []
elements (c ∷ s) = let rest = elements s in if c == b'/' then [] ∷ rest else onto_first c rest

-- `path.Clean` of a path from the root: the elements kept so far, the last one first
abbrev pub without_last : List Bytes → List Bytes
without_last [] = []
without_last (e ∷ es) = es

unfoldable pub clean_from : List Bytes → List Bytes → List Bytes
clean_from kept [] = kept
clean_from kept (e ∷ es) =
    clean_from
      (if equal e [] || equal e (codes ".")
        then kept
        else if equal e (codes "..")
        then without_last kept
        else e ∷ kept)
      es

unfoldable pub joined_onto : List Bytes → Bytes → Bytes
joined_onto [] s = s
joined_onto (e ∷ es) s = joined_onto es (b'/' ∷ (e ++ s))

abbrev pub or_root : Bytes → Bytes
or_root [] = codes "/"
or_root (c ∷ s) = c ∷ s

abbrev pub clean : Bytes → Bytes
clean p = or_root (joined_onto (clean_from [] (elements p)) [])

-- `isDownloadsAPIPath`
unfoldable pub is_downloads_api_path : (Bytes → Bytes) → Bytes → Bool
is_downloads_api_path to_lower p =
    equal (to_lower (clean p)) (codes "/api/downloads")
    || has_prefix (to_lower (clean p)) (codes "/api/downloads/")

unfoldable pub cached_in : List (Bytes × CachedInfo) → Bytes → Option CachedInfo
cached_in [] sid = none
cached_in ((k, c) ∷ infos) sid =
    let rest = cached_in infos sid in if equal k sid then some c else rest

-- `forget`
unfoldable pub forget : Bytes → List (Bytes × CachedInfo) → List (Bytes × CachedInfo)
forget sid [] = []
forget sid ((k, c) ∷ infos) =
    let rest = forget sid infos in if equal k sid then rest else (k, c) ∷ rest

abbrev pub live_info : ℕ → Option CachedInfo → Option ConnectionInfo
live_info now none = none
live_info now (some c) = if ltb now c.expires then some c.info else none

abbrev pub remember :
    ℕ → Bytes → Option ConnectionInfo → List (Bytes × CachedInfo) → List (Bytes × CachedInfo)
remember now sid none infos = infos
remember now sid (some info) infos = (sid, record { info = info; expires = now + info_ttl }) ∷ infos

abbrev pub from_cache :
    Option ConnectionInfo
    → ℕ
    → Bytes
    → Option ConnectionInfo
    → List (Bytes × CachedInfo)
    → List (Bytes × CachedInfo) × Option ConnectionInfo × List Effect
from_cache (some info) now sid answer infos = (infos, some info, [])
from_cache none now sid answer infos = (remember now sid answer infos, answer, asked sid ∷ [])

-- `connectionInfo`, with what the internal API would answer
unfoldable pub connection_info :
    ℕ
    → Bytes
    → Option ConnectionInfo
    → List (Bytes × CachedInfo)
    → List (Bytes × CachedInfo) × Option ConnectionInfo × List Effect
connection_info now sid answer infos =
    from_cache (live_info now (cached_in infos sid)) now sid answer infos

-- `net.JoinHostPort`
abbrev pub join_host_port : Bytes → ℕ → Bytes
join_host_port host port =
    if contains host (codes ":")
    then b'[' ∷ (host ++ codes "]:" ++ decimal port)
    else host ++ b':' ∷ decimal port

-- `q.Del("token")`
unfoldable pub without_token : Meta → Meta
without_token [] = []
without_token ((k, v) ∷ query) =
    let rest = without_token query in if equal k (codes "token") then rest else (k, v) ∷ rest

-- `proxyTo`: the rewritten request
abbrev pub proxy_to : ConnectionInfo → Bytes → Request → Outgoing
proxy_to info rest r = record {
  host = join_host_port info.hostname info.port;
  path = rest;
  query = without_token r.query;
  cookie = none;
  username = if equal info.username [] then codes "kasm_user" else info.username;
  password = info.password;
  origin =
      if equal r.origin []
      then codes "https://" ++ join_host_port info.hostname info.port
      else r.origin;
}

abbrev pub or_empty : Option Bytes → Bytes
or_empty none = []
or_empty (some s) = s

abbrev pub query_token : Request → Bytes
query_token r = or_empty (lookup (codes "token") r.query)

-- the token of the query, or else of the cookie
abbrev pub token_of : Request → Bytes
token_of r = if equal (query_token r) [] then or_empty r.cookie else query_token r

abbrev pub set_cookie : Bytes → Request → List Effect
set_cookie sid r =
    if equal (query_token r) []
    then []
    else cookie_set (query_token r) (route_prefix ++ sid)
        (r.tls || equal r.forwarded_proto (codes "https"))
      ∷ []

abbrev pub stream : Bool → Bytes → Outgoing → List Effect
stream true sid o = tunnel_up ∷ proxied o ∷ tunnel_down ∷ ended sid ∷ []
stream false sid o = proxied o ∷ []

abbrev pub if_stream : Bool → Bytes → List (Bytes × CachedInfo) → List (Bytes × CachedInfo)
if_stream true sid infos = forget sid infos
if_stream false sid infos = infos

module _ (to_lower : Bytes → Bytes) where
  abbrev pub after_info :
      List (Bytes × CachedInfo) × Option ConnectionInfo × List Effect
      → Bytes
      → Bytes
      → Request
      → List (Bytes × CachedInfo) × List Effect
  after_info (infos, none, es) sid rest r = (infos, es ++ responded 409 ∷ [])
  after_info (infos, some info, es) sid rest r =
      if not (equal info.protocol (codes "kasmvnc"))
      then (infos, es ++ responded 409 ∷ [])
      else if is_downloads_api_path to_lower rest
      then (infos, es ++ responded 403 ∷ [])
      else (
        if_stream r.is_websocket sid infos,
        es ++ (set_cookie sid r ++ stream r.is_websocket sid (proxy_to info rest r)),
      )

  abbrev pub after_token :
      Option ConnectionClaims
      → ℕ
      → Bytes
      → Bytes
      → Option ConnectionInfo
      → Request
      → List (Bytes × CachedInfo)
      → List (Bytes × CachedInfo) × List Effect
  after_token none now sid rest answer r infos = (infos, responded 401 ∷ [])
  after_token (some claims) now sid rest answer r infos =
      let served = after_info (connection_info now sid answer infos) sid rest r in
      if equal claims.session_id sid then served else (infos, responded 403 ∷ [])

  abbrev pub after_path :
      Option (Bytes × Bytes)
      → Jwt
      → Bytes
      → Fetched
      → ℕ
      → (Bytes → Option ConnectionInfo)
      → Request
      → Handler
      → Handler × List Effect
  after_path none jwt issuer response now api r h = (h, responded 404 ∷ [])
  after_path (some (sid, rest)) jwt issuer response now api r h =
      let checked = validate_connection_token jwt (token_of r) issuer response now h.keys in
      let done = after_token checked.1 now sid rest (api sid) r h.infos in
      (record { keys = checked.0; infos = done.0 }, done.1)

  -- `ServeHTTP`
  unfoldable pub serve :
      Jwt
      → Bytes
      → Fetched
      → ℕ
      → (Bytes → Option ConnectionInfo)
      → Request
      → Handler
      → Handler × List Effect
  serve jwt issuer response now api r h =
      after_path (split_path r.path) jwt issuer response now api r h
