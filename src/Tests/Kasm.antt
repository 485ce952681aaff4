-- ===== src/Tests/Kasm.antt =====
-- Runs of the KasmVNC proxy of wwt.
use waas.Prelude.{◌≡◌, refl, true, false, [], ◌∷◌, none, some, Bytes, codes, equal, has_prefix}
use waas.Metakeys.Merge.{lookup}
use waas.Session.{
  no_answer, key, key_in, ConnectionClaims, Jwt, validate_connection_token, ConnectionInfo,
}
use waas.Session.Kasm.{
  Handler, Request, responded, serve, split_path, before_slash, behind_slash, elements, clean_from,
  joined_onto, is_downloads_api_path,
}

abbrev claims : ConnectionClaims
claims = record { session_id = codes "s1"; workspace_id = codes "w1"; copy = false; paste = false }

abbrev library : Jwt
library = record {
  parse_unverified = λ t. some (codes "k1");
  parse_with_claims = λ k alg iss aud t. some claims;
}

abbrev info : ConnectionInfo
info = record {
  protocol = codes "kasmvnc";
  hostname = codes "ws-1";
  port = 6901;
  username = [];
  password = codes "pw";
  params = λ name. none;
}

abbrev handler : Handler
handler = record {
  keys = record { keys = (codes "k1", record { n = 7; e = 3 }) ∷ []; fetched = 100 };
  infos = [];
}

abbrev get : Bytes → Request
get path = record {
  path = path;
  query = (codes "token", codes "t") ∷ [];
  cookie = none;
  origin = [];
  tls = true;
  forwarded_proto = [];
  is_websocket = true;
}

downloads-test : is_downloads_api_path (λ s. s) (codes "//api/./x/../downloads/a") ≡ true
unfolding is_downloads_api_path elements clean_from joined_onto equal has_prefix
downloads-test = refl

other_session-test :
    (serve
      (λ s. s)
      library
      (codes "waas")
      no_answer
      200
      (λ sid. some info)
      (get (codes "/kasm/s2/"))
      handler).1
    ≡ responded 403 ∷ []
unfolding serve split_path before_slash behind_slash has_prefix lookup equal
    validate_connection_token key key_in
other_session-test = refl
