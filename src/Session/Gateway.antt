-- ===== src/Session/Gateway.antt =====
-- wwt/internal/proxy/proxy.go: `ServeHTTP`, from the request to the end of the session. What the network
-- answers is an argument; the effects are listed in their order.
use waas.Prelude.{
  ℕ, ◌-◌, Bool, true, false, List, [], ◌∷◌, Option, none, some, Bytes, codes, if◌then◌else◌, ◌==◌,
  equal,
}
use waas.Guac.Decimal.{ℤ, pos, negsuc, int_limit, unsigned, atoi}
use waas.Guac.Result.{Result, ok, err}
use waas.Guac.Handshake.{ConnectionParams, Conn, handshake}
use waas.Tunnel.{Tunnel, new_tunnel, Event, run}
use waas.Session.{Fetched, Client, ConnectionClaims, Jwt, validate_connection_token, ConnectionInfo}

-- the query of a request
pub record Request : Type 0 where
  pub token : Bytes
  pub width : Bytes
  pub height : Bytes
  pub dpi : Bytes
  pub layout : Bytes

-- what the others answer: the internal API, guacd when it is dialed, the upgrade, and what happens in the session
pub record Answers : Type 0 where
  pub info : Bytes → Option ConnectionInfo
  pub dial : Option Conn
  pub upgrades : Bool
  pub events : List Event

pub data Effect : Type 0 where
  refused_token dialed closed tunnel_up tunnel_down : Effect
  asked : Bytes → Effect
  responded : ℕ → Effect
  piped : Tunnel → Effect
  ended : Bytes → Effect

-- `Atoi` with its error ignored: a number out of range is the nearest one in it, anything else 0
abbrev clamped_up : Option ℕ → ℤ
clamped_up none = pos 0
clamped_up (some n) = pos (int_limit - 1)

abbrev clamped_down : Option ℕ → ℤ
clamped_down none = pos 0
clamped_down (some n) = negsuc (int_limit - 1)

abbrev clamped : Bytes → ℤ
clamped [] = pos 0
clamped (c ∷ s) =
    if c == b'+'
    then clamped_up (unsigned s)
    else if c == b'-'
    then clamped_down (unsigned s)
    else clamped_up (unsigned (c ∷ s))

-- `intQuery`
unfoldable pub int_query : Bytes → ℤ
int_query s = elim (atoi s) [ some v ↦ v | none ↦ clamped s ]

abbrev pub params_of : ConnectionInfo → Request → ConnectionParams
params_of info r = record {
  protocol = info.protocol;
  hostname = info.hostname;
  port = pos info.port;
  username = info.username;
  password = info.password;
  extra = info.params;
  width = int_query r.width;
  height = int_query r.height;
  dpi = int_query r.dpi;
  client_layout = r.layout;
}

-- the session itself and its end
abbrev pub relay : ConnectionClaims → Answers → List Effect
relay claims a =
    tunnel_up
    ∷ piped (run a.events (new_tunnel claims.copy claims.paste))
    ∷ tunnel_down
    ∷ ended claims.session_id
    ∷ []

abbrev pub upgraded : Bool → ConnectionClaims → Answers → List Effect
upgraded false claims a = closed ∷ []
upgraded true claims a = relay claims a

abbrev pub after_handshake : Conn × Result Bytes → ConnectionClaims → Answers → List Effect
after_handshake (c, err e) claims a = closed ∷ responded 502 ∷ []
after_handshake (c, ok id) claims a = upgraded a.upgrades claims a

abbrev pub after_dial :
    Option Conn → ConnectionInfo → ConnectionClaims → Request → Answers → List Effect
after_dial none info claims r a = responded 502 ∷ []
after_dial (some c) info claims r a = after_handshake (handshake (params_of info r) c) claims a

abbrev pub after_info : Option ConnectionInfo → ConnectionClaims → Request → Answers → List Effect
after_info none claims r a = responded 409 ∷ []
after_info (some info) claims r a =
    if equal info.protocol (codes "kasmvnc")
    then responded 409 ∷ []
    else dialed ∷ after_dial a.dial info claims r a

abbrev pub after_token : Option ConnectionClaims → Request → Answers → List Effect
after_token none r a = refused_token ∷ responded 401 ∷ []
after_token (some claims) r a =
    asked claims.session_id ∷ after_info (a.info claims.session_id) claims r a

-- `ServeHTTP`
unfoldable pub serve_http :
    Jwt → Bytes → Fetched → ℕ → Request → Answers → Client → Client × List Effect
serve_http jwt issuer response now r a c =
    let checked = validate_connection_token jwt r.token issuer response now c in
    (checked.0, after_token checked.1 r a)
