-- ===== src/Session/Gate.antt =====
-- What stands before a connection to guacd, and what follows it.
use waas.Prelude.{
  ℕ, ◌≡◌, refl, ◌∙◌, ap, sym, ◌≢◌, inl, inr, Bool, true, false, List, [], ◌∷◌, ◌++◌, Option, none,
  some, Bytes, codes, if◌then◌else◌, equal, equal_iff, In, All,
}
use mathlib.Core.Path.{subst}
use waas.Guac.Instruction.{Instruction, IsInstruction}
use waas.Guac.Framing.Stream.{encode_all}
use waas.Guac.Framing.Frames.{IsShort}
use waas.Tunnel.Guarded.{IsQuietSent, from_server}
use waas.Tunnel.Quiet.{run-quiet}
use waas.Guac.Result.{Result, ok, err}
use waas.Guac.Handshake.{Conn, handshake}
use waas.Tunnel.{Tunnel, new_tunnel, run}
use waas.Session.{Fetched, Client, ConnectionClaims, Jwt, validate_connection_token, ConnectionInfo}
use waas.Session.Keys.{IsValid, validate_connection_token-IsValid}
use waas.Session.Gateway.{
  Request, Answers, Effect, dialed, closed, tunnel_up, asked, responded, piped, ended, params_of,
  relay, upgraded, after_handshake, after_dial, after_info, after_token, serve_http,
}

-- The desktop has been found, and it is not one of KasmVNC.
pub record IsFound (a : Answers) (claims : ConnectionClaims) : Type 0 where
  pub info : ConnectionInfo
  pub known : a.info claims.session_id ≡ some info
  pub spoken : info.protocol ≢ codes "kasmvnc"

-- What follows once guacd has been dialed: no answer; a failed handshake or upgrade, with the connection closed;
-- or the session with its grants, counted while it lasts, and then reported as ended.
pub data Ending (a : Answers) (claims : ConnectionClaims) : List Effect → Type 0 where
  unreachable : Ending a claims (responded 502 ∷ [])
  no_handshake : Ending a claims (closed ∷ responded 502 ∷ [])
  no_upgrade : Ending a claims (closed ∷ [])
  session : Ending a claims (relay claims a)

after_handshake-Ending :
    (x : Conn × Result Bytes) (claims : ConnectionClaims) (a : Answers)
    → Ending a claims (after_handshake x claims a)
after_handshake-Ending (c, err e) claims a = no_handshake
after_handshake-Ending (c, ok id) claims a = by_upgrade a.upgrades
  where
    by_upgrade : (b : Bool) → Ending a claims (upgraded b claims a)
    by_upgrade false = no_upgrade
    by_upgrade true = session

after_dial-Ending :
    (o : Option Conn) (info : ConnectionInfo) (claims : ConnectionClaims) (r : Request)
    (a : Answers)
    → Ending a claims (after_dial o info claims r a)
after_dial-Ending none info claims r a = unreachable
after_dial-Ending (some c) info claims r a =
    after_handshake-Ending (handshake (params_of info r) c) claims a

-- an effect that only follows a dial
abbrev pub is_contact : Effect → Bool
is_contact dialed = true
is_contact (piped t) = true
is_contact (ended id) = true
is_contact tunnel_up = true
is_contact e = false

not_in_one : (x : Effect) (n : ℕ) → is_contact x ≡ true → In x (responded n ∷ []) → ⊥
not_in_one x n k h = elim h [ inl e ↦ absurd (let t = ap is_contact e in cc) | inr i ↦ elim i [ ] ]

module _ (jwt : Jwt) (issuer : Bytes) (response : Fetched) (now : ℕ) (r : Request) (a : Answers)
    (c : Client) where
  -- The course of a request that gets as far as guacd.
  pub record IsGated (effects : List Effect) : Type 0 where
    pub claims : ConnectionClaims
    pub valid : IsValid jwt issuer response now c r.token claims
    pub found : IsFound a claims
    pub rest : List Effect
    pub course : effects ≡ asked claims.session_id ∷ dialed ∷ rest
    pub ending : Ending a claims rest

  IsGated-info :
      (claims : ConnectionClaims)
      → IsValid jwt issuer response now c r.token claims
      → (o : Option ConnectionInfo) → a.info claims.session_id ≡ o
      → (x : Effect) → is_contact x ≡ true
      → In x (after_info o claims r a)
      → IsGated (asked claims.session_id ∷ after_info o claims r a)
  IsGated-info claims valid none e x k h = absurd (not_in_one x 409 k h)
  IsGated-info claims valid (some info) e x k h =
      by_protocol (equal info.protocol (codes "kasmvnc")) refl h
    where
      by_protocol :
          (b : Bool)
          → equal info.protocol (codes "kasmvnc") ≡ b
          → In x (if b then responded 409 ∷ [] else dialed ∷ after_dial a.dial info claims r a)
          → IsGated (
              asked claims.session_id
              ∷ (if b then responded 409 ∷ [] else dialed ∷ after_dial a.dial info claims r a))
      by_protocol true f i = absurd (not_in_one x 409 k i)
      by_protocol false f i = record {
        claims = claims;
        valid = valid;
        found = record {
          info = info;
          known = e;
          spoken = λ same. let t = (equal_iff info.protocol (codes "kasmvnc")).1 same in cc;
        };
        rest = after_dial a.dial info claims r a;
        course = refl;
        ending = after_dial-Ending a.dial info claims r a;
      }

  -- A request dials guacd, or does anything that follows a dial, only if the library accepts its token, under a key
  -- that the client serves, as a connection token of the issuer, and the session in the token has a desktop that is
  -- not one of KasmVNC. Whatever happens then, the connection is closed again unless the session runs; it runs with
  -- the grants of the token and is reported as ended.
  pub serve_http-IsGated :
      (x : Effect)
      → is_contact x ≡ true
      → In x (serve_http jwt issuer response now r a c).1
      → IsGated (serve_http jwt issuer response now r a c).1
  unfolding serve_http
  serve_http-IsGated x k h =
      by_token (validate_connection_token jwt r.token issuer response now c).1 refl h
    where
      by_token :
          (o : Option ConnectionClaims)
          → (validate_connection_token jwt r.token issuer response now c).1 ≡ o
          → In x (after_token o r a)
          → IsGated (after_token o r a)
      by_token none e i = elim i [
        | inl same ↦ absurd (let t = ap is_contact same in cc)
        | inr more ↦ absurd (not_in_one x 401 k more)
      ]
      by_token (some claims) e i = elim i [
        | inl same ↦ absurd (let t = ap is_contact same in cc)
        | inr more ↦
            IsGated-info claims
              (validate_connection_token-IsValid jwt r.token issuer response now c claims e)
              (a.info claims.session_id) refl x k more
      ]

  piped-relay :
      (claims : ConnectionClaims) (t : Tunnel) (rest : List Effect)
      → Ending a claims rest
      → In (piped t) rest
      → t ≡ run a.events (new_tunnel claims.copy claims.paste)
  piped-relay claims t rest unreachable i = elim i [ inl e ↦ absurd cc | inr j ↦ elim j [ ] ]
  piped-relay claims t rest no_handshake i = elim i [
    | inl e ↦ absurd cc
    | inr j ↦ elim j [ inl e ↦ absurd cc | inr k ↦ elim k [ ] ]
  ]
  piped-relay claims t rest no_upgrade i = elim i [ inl e ↦ absurd cc | inr j ↦ elim j [ ] ]
  piped-relay claims t rest session i = elim i [
    | inl e ↦ absurd cc
    | inr j ↦ elim j [
      | inl e ↦ cc
      | inr k ↦ elim k [
        | inl e ↦ absurd cc
        | inr l ↦ elim l [ inl e ↦ absurd cc | inr m ↦ elim m [ ] ]
      ]
    ]
  ]

  -- A session that comes about has a valid token; and if this token does not grant copying, and guacd sends a stream of
  -- instructions of at most `MaxPendingBytes` bytes each, every frame to the browser is a row of whole instructions of
  -- which none opens a clipboard stream, whatever the browser sends and however the stream is cut.
  pub serve_http-quiet :
      (t : Tunnel) (tail : Bytes) (is : List Instruction)
      → All IsInstruction is
      → All IsShort is
      → from_server a.events ++ tail ≡ encode_all is
      → In (piped t) (serve_http jwt issuer response now r a c).1
      → (claims : ConnectionClaims) × IsValid jwt issuer response now c r.token claims
        × (claims.copy ≡ false → All IsQuietSent t.to_browser)
  serve_http-quiet t tail is fit short stream i =
      let g = serve_http-IsGated (piped t) refl i in
      let same =
        piped-relay g.claims t g.rest g.ending
          (behind g.claims.session_id g.rest (subst (In (piped t)) g.course i)) in
      (
        g.claims,
        g.valid,
        λ no_copy.
            subst (λ u. All IsQuietSent u.to_browser)
              (sym (same ∙ ap (λ b. run a.events (new_tunnel b g.claims.paste)) no_copy))
              (run-quiet g.claims.paste a.events tail is fit short stream),
      )
    where
      behind :
          (id : Bytes) (rest : List Effect)
          → In (piped t) (asked id ∷ dialed ∷ rest)
          → In (piped t) rest
      behind id rest j = elim j [
        | inl e ↦ absurd cc
        | inr k ↦ elim k [ inl e ↦ absurd cc | inr l ↦ l ]
      ]
