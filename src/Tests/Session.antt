-- ===== src/Tests/Session.antt =====
-- Runs of the two proxies of wwt.
use waas.Prelude.{
  ◌≡◌, refl, inl, inr, true, false, [], ◌∷◌, Option, none, some, Bytes, codes, All, In, equal,
}
use waas.Guac.Decimal.{pos, atoi, unsigned, digits_value, in_int}
use waas.Guac.Utf8.{decode_rune, encode_runes, encode_rune}
use waas.Guac.Instruction.{read_instruction}
use waas.Guac.Handshake.{Conn, handshake, send, receive, after_args}
use waas.Tunnel.{new_tunnel, run}
use waas.Tunnel.Guarded.{IsQuietSent}
use waas.Session.{
  Fetched, answered, no_answer, Client, key, key_in, collect, sextets, octets, big_endian,
  ConnectionClaims, Jwt, validate_connection_token, ConnectionInfo,
}
use waas.Session.Keys.{Serves, key-Serves, IsValid}
use waas.Session.Gateway.{
  Request, Answers, refused_token, dialed, responded, piped, serve_http, int_query,
}
use waas.Session.Gate.{IsGated, serve_http-IsGated, serve_http-quiet}
use waas.Tests.Guac.{stream, stream-IsInstruction, stream-IsShort}
use waas.Tests.Tunnel.{session, session_stream}

abbrev published : Fetched
published =
    answered 200
      (some (record { kty = codes "RSA"; kid = codes "k1"; n = codes "AQAB"; e = codes "Aw" } ∷ []))

abbrev empty_client : Client
empty_client = record { keys = []; fetched = 0 }

abbrev held : Client
held = record { keys = (codes "k1", record { n = 7; e = 3 }) ∷ []; fetched = 100 }

abbrev claims : ConnectionClaims
claims = record { session_id = codes "s1"; workspace_id = codes "w1"; copy = false; paste = true }

abbrev library : Jwt
library = record {
  parse_unverified = λ t. some (codes "k1");
  parse_with_claims = λ k alg iss aud t. some claims;
}

key-test :
    (key published 400000000000 (codes "k1") empty_client).1 ≡ some (record { n = 65537; e = 3 })
unfolding key key_in collect sextets octets big_endian equal
key-test = refl

key-stale_test : (key no_answer 400000000000 (codes "k1") held).1 ≡ some (record { n = 7; e = 3 })
unfolding key key_in equal
key-stale_test = refl

key-Serves_example :
    Serves no_answer 400000000000
      (codes "k1")
      held
      (record { n = 7; e = 3 })
      (key no_answer 400000000000 (codes "k1") held).0
key-Serves_example =
    key-Serves no_answer 400000000000 (codes "k1") held (record { n = 7; e = 3 }) key-stale_test

int_query-test : int_query (codes "1280") ≡ pos 1280
unfolding int_query atoi unsigned digits_value in_int
int_query-test = refl

abbrev request : Request
request = record { token = codes "t"; width = codes "1280"; height = []; dpi = []; layout = [] }

abbrev info : Bytes → ConnectionInfo
info protocol = record {
  protocol = protocol;
  hostname = codes "ws-1";
  port = 5901;
  username = [];
  password = [];
  params = λ name. none;
}

abbrev guacd : Conn
guacd = record { input = codes "4.args,8.hostname;5.ready,3.$id;"; output = []; writes_left = 6 }

abbrev answers : Option Conn → Answers
answers dial = record {
  info = λ sid. some (info (codes "vnc"));
  dial = dial;
  upgrades = true;
  events = session;
}

serve_http-empty_test :
    (serve_http library
      (codes "waas")
      no_answer
      200
      (record request { token = [] })
      (answers none)
      held).1
    ≡ refused_token ∷ responded 401 ∷ []
unfolding serve_http validate_connection_token equal
serve_http-empty_test = refl

dials : In dialed (serve_http library (codes "waas") no_answer 200 request (answers none) held).1
unfolding serve_http validate_connection_token key key_in equal
dials = inr (inl refl)

serve_http-IsGated_example :
    IsGated library
      (codes "waas")
      no_answer
      200
      request
      (answers none)
      held
      (serve_http library (codes "waas") no_answer 200 request (answers none) held).1
serve_http-IsGated_example =
    serve_http-IsGated library (codes "waas") no_answer 200 request (answers none) held dialed refl
      dials

pipes :
    In
      (piped (run session (new_tunnel false true)))
      (serve_http library (codes "waas") no_answer 200 request (answers (some guacd)) held).1
unfolding serve_http validate_connection_token key key_in equal handshake send receive after_args
    read_instruction atoi decode_rune encode_runes encode_rune
pipes = inr (inr (inr (inl refl)))

serve_http-quiet_example :
    (claims : ConnectionClaims) × IsValid library
      (codes "waas")
      no_answer
      200
      held
      (codes "t")
      claims
    × (claims.copy ≡ false → All IsQuietSent (run session (new_tunnel false true)).to_browser)
serve_http-quiet_example =
    serve_http-quiet library (codes "waas") no_answer 200 request (answers (some guacd)) held
      (run session (new_tunnel false true)) [] stream stream-IsInstruction stream-IsShort
      session_stream pipes
