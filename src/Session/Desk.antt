-- ===== src/Session/Desk.antt =====
-- What reaches a KasmVNC desktop.
use waas.Prelude.{ℕ, ◌<◌, ◌≡◌, false, List, Option, some, Bytes, codes}
use waas.Session.{Fetched, ConnectionClaims, Jwt, ConnectionInfo}
use waas.Session.Keys.{IsValid}
use waas.Session.Kasm.{
  CachedInfo, Handler, Request, Outgoing, split_path, is_downloads_api_path, cached_in, proxy_to,
  token_of,
}

-- The session's desktop, as the internal API gives it now, or as it did not longer ago than the cache allows.
pub data Known (api : Bytes → Option ConnectionInfo) (now : ℕ) (infos : List (Bytes × CachedInfo))
    (sid : Bytes) (info : ConnectionInfo) : Type 0 where
  by_api : api sid ≡ some info → Known api now infos sid info
  by_cache :
      (c : CachedInfo)
      → cached_in infos sid ≡ some c
      → now < c.expires
      → c.info ≡ info
      → Known api now infos sid info

module _ (to_lower : Bytes → Bytes) (jwt : Jwt) (issuer : Bytes) (response : Fetched) (now : ℕ)
    (api : Bytes → Option ConnectionInfo) (r : Request) (h : Handler) where
  -- A request that is passed on to a desktop.
  pub record IsPassed (out : Outgoing) : Type 0 where
    pub sid : Bytes
    pub rest : Bytes
    pub named : split_path r.path ≡ some (sid, rest)
    pub claims : ConnectionClaims
    pub valid : IsValid jwt issuer response now h.keys (token_of r) claims
    pub own : claims.session_id ≡ sid
    pub info : ConnectionInfo
    pub known : Known api now h.infos sid info
    pub spoken : info.protocol ≡ codes "kasmvnc"
    pub no_download : is_downloads_api_path to_lower rest ≡ false
    pub rewritten : out ≡ proxy_to info rest r
