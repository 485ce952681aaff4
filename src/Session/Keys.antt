-- ===== src/Session/Keys.antt =====
-- Which keys the client serves, and whose tokens are valid.
use waas.Prelude.{
  ℕ, ◌≡◌, refl, ◌∙◌, ap, ◌≢◌, inl, inr, Bool, true, false, [], Option, none, some, Bytes, codes,
  equal, equal_iff, Bool-cases,
}
use waas.Session.{
  PublicKey, KeyMap, key_in, Fetched, Client, document, refresh_locked, after_refresh, is_fresh,
  if_fresh, key, ConnectionClaims, Jwt, verified, with_kid, validate_connection_token,
}

-- Where a key comes from: the cache while it is fresh, the document that was just fetched, or the cache because
-- no document could be had.
pub data Serves (response : Fetched) (now : ℕ) (kid : Bytes) (c : Client) (public : PublicKey)
    : Client → Type 0 where
  cached :
      is_fresh now c ≡ true → key_in c.keys kid ≡ some public → Serves response now kid c public c
  fetched :
      (keys : KeyMap)
      → document response ≡ some keys
      → key_in keys kid ≡ some public
      → Serves response now kid c public (record { keys = keys; fetched = now })
  stale :
      document response ≡ none
      → key_in c.keys kid ≡ some public
      → Serves response now kid c public c

after_refresh-Serves :
    (response : Fetched) (now : ℕ) (kid : Bytes) (c : Client) (public : PublicKey)
    (o : Option KeyMap)
    → document response ≡ o
    → (after_refresh (refresh_locked o now) c kid).1 ≡ some public
    → Serves response now kid c public (after_refresh (refresh_locked o now) c kid).0
after_refresh-Serves response now kid c public none e h = stale e h
after_refresh-Serves response now kid c public (some keys) e h = fetched keys e h

-- A key that `Key` returns is one of the cache while it is fresh, one of the document that it fetched (which it
-- then keeps), or, only if no document could be had, one of the old cache.
pub key-Serves :
    (response : Fetched) (now : ℕ) (kid : Bytes) (c : Client) (public : PublicKey)
    → (key response now kid c).1 ≡ some public
    → Serves response now kid c public (key response now kid c).0
unfolding key
key-Serves response now kid c public = by_cache (is_fresh now c) (key_in c.keys kid) refl refl
  where
    refreshed : Client × Option PublicKey
    refreshed = after_refresh (refresh_locked (document response) now) c kid

    by_cache :
        (b : Bool) (o : Option PublicKey)
        → is_fresh now c ≡ b
        → key_in c.keys kid ≡ o
        → (if_fresh b o c refreshed).1 ≡ some public
        → Serves response now kid c public (if_fresh b o c refreshed).0
    by_cache true (some k) f e h = cached f (e ∙ h)
    by_cache true none f e h =
        after_refresh-Serves response now kid c public (document response) refl h
    by_cache false o f e h =
        after_refresh-Serves response now kid c public (document response) refl h

module _ (jwt : Jwt) where
  -- The token is not empty, and the library accepts it as a connection token of the issuer, under the key that the
  -- client serves for the id in its own header.
  pub record IsValid (issuer : Bytes) (response : Fetched) (now : ℕ) (c : Client) (token : Bytes)
      (claims : ConnectionClaims) : Type 0 where
    pub given : token ≢ []
    pub kid : Bytes
    pub header : jwt.parse_unverified token ≡ some kid
    pub public : PublicKey
    pub served : (key response now kid c).1 ≡ some public
    pub accepted :
        jwt.parse_with_claims public (codes "RS256") issuer (codes "waas-connection") token
        ≡ some claims

  pub validate_connection_token-IsValid :
      (token issuer : Bytes) (response : Fetched) (now : ℕ) (c : Client) (claims : ConnectionClaims)
      → (validate_connection_token jwt token issuer response now c).1 ≡ some claims
      → IsValid issuer response now c token claims
  unfolding validate_connection_token
  validate_connection_token-IsValid token issuer response now c claims h =
      elim (Bool-cases (equal token [])) [
        | inl e ↦ absurd (let k = rw e at h in cc)
        | inr e ↦
            let given : token ≢ [] = λ z. let t = (equal_iff token []).1 z in cc in
            by_kid given (jwt.parse_unverified token) refl (rw e at h)
      ]
    where
      by_key :
          (kid : Bytes)
          → token ≢ []
          → jwt.parse_unverified token ≡ some kid
          → (r : Client × Option PublicKey) → key response now kid c ≡ r
          → (verified jwt token issuer r).1 ≡ some claims
          → IsValid issuer response now c token claims
      by_key kid given e (d, none) k h = absurd cc
      by_key kid given e (d, some public) k h = record {
        given = given;
        kid = kid;
        header = e;
        public = public;
        served = ap (λ r. r.1) k;
        accepted = h;
      }

      by_kid :
          token ≢ []
          → (o : Option Bytes) → jwt.parse_unverified token ≡ o
          → (with_kid jwt o token issuer response now c).1 ≡ some claims
          → IsValid issuer response now c token claims
      by_kid given none e h = absurd cc
      by_kid given (some kid) e h = by_key kid given e (key response now kid c) refl h
