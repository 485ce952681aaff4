-- ===== src/HostGuard/Outside.antt =====
-- Which hosts the guard lets through.
use waas.Prelude.{
  ◌≡◌, refl, ◌≢◌, ◌↔◌, inl, inr, Bool, true, false, not, ◌||◌, List, [], ◌∷◌, Option, none, some,
  Bytes, codes, if◌then◌else◌, arith, any, equal, equal_iff, contains, Bool-cases, All,
}
use mathlib.Core.Path.{subst}
use waas.Metakeys.{has_suffix}
use waas.Policy.Overrides.{trim_space}
use waas.HostGuard.{
  Network, HostGuard, check_ip, trim_dot, suffixes, check_addresses, is_local_name, check_name,
  check_host, check,
}
use waas.HostGuard.Ranges.{IsAddress, IsOutside, any-All, check_ip-IsOutside}

-- A name that is not of this machine, has a dot, and lies outside the domain of the cluster.
pub record IsExternal (g : HostGuard) (name : Bytes) : Type 0 where
  pub no_localhost : name ≢ codes "localhost"
  pub no_child : has_suffix name (codes ".localhost") ≡ false
  pub dotted : contains name (codes ".") ≡ true
  pub foreign : All (λ suffix. has_suffix name suffix ≡ false) (suffixes g)

-- An address outside, or an external name of which every address, if the resolver has an answer, lies outside.
pub data IsReachable (net : Network) (g : HostGuard) (host : Bytes) : Type 0 where
  literal : (ip : Bytes) → net.parse_ip host ≡ some ip → IsOutside g ip → IsReachable net g host
  named :
      net.parse_ip host ≡ none
      → IsExternal g (net.lower (trim_dot host))
      → ((addrs : List Bytes) → net.lookup_ip_addr host ≡ some addrs → All (IsOutside g) addrs)
      → IsReachable net g host

all_checked :
    (g : HostGuard) (addrs : List Bytes)
    → All IsAddress addrs
    → (any (λ ip. not (check_ip g ip)) addrs ≡ false) ↔ All (IsOutside g) addrs
all_checked g [] h = (λ k. tt, λ k. refl)
all_checked g (ip ∷ addrs) h =
    let (there, back) = all_checked g addrs h.1 in
    let (to, fro) = check_ip-IsOutside g ip h.0 in
    (
      λ k. (to (ground arith), there (ground arith)),
      λ k. let c = fro k.0 in let r = back k.1 in ground arith,
    )

module _ (net : Network)
    (resolves : (s : Bytes) (addrs : List Bytes)
      → net.lookup_ip_addr s ≡ some addrs
      → All IsAddress addrs)
    (g : HostGuard) where
  check_addresses-All :
      (host : Bytes) (o : Option (List Bytes))
      → net.lookup_ip_addr host ≡ o
      → (check_addresses g o ≡ true)
        ↔ ((addrs : List Bytes) → net.lookup_ip_addr host ≡ some addrs → All (IsOutside g) addrs)
  check_addresses-All host none e = (λ h addrs k. absurd cc, λ h. refl)
  check_addresses-All host (some found) e =
      let (there, back) = all_checked g found (resolves host found e) in
      (
        λ h addrs k.
            let same : found ≡ addrs = cc in subst (All (IsOutside g)) same (there (ground arith)),
        λ h. let b = back (h found e) in ground arith,
      )

  check_name-IsExternal :
      (name : Bytes) (o : Option (List Bytes))
      → (check_name g name o ≡ true) ↔ (IsExternal g name × (check_addresses g o ≡ true))
  unfolding check_name
  check_name-IsExternal name o = (there, back)
    where
      apart :
          (l c d s a : Bool)
          → (if l || c then false else if not d then false else if s then false else a) ≡ true
          → (l ≡ false) × (c ≡ false) × (d ≡ true) × (s ≡ false) × (a ≡ true)
      apart l c d s a h = (ground arith, ground arith, ground arith, ground arith, ground arith)

      join :
          (l c d s a : Bool)
          → l ≡ false
          → c ≡ false
          → d ≡ true
          → s ≡ false
          → a ≡ true
          → (if l || c then false else if not d then false else if s then false else a) ≡ true
      join l c d s a hl hc hd hs ha = ground arith

      there :
          (if is_local_name name
              then false
              else if not (contains name (codes "."))
              then false
              else if any (λ suffix. has_suffix name suffix) (suffixes g)
              then false
              else check_addresses g o)
            ≡ true
          → IsExternal g name × (check_addresses g o ≡ true)
      there h =
          let (l, c, d, s, a) =
            apart (equal name (codes "localhost")) (has_suffix name (codes ".localhost"))
              (contains name (codes ".")) (any (λ suffix. has_suffix name suffix) (suffixes g))
              (check_addresses g o) h in
          (
            record {
              no_localhost = λ e. let t = (equal_iff name (codes "localhost")).1 e in cc;
              no_child = c;
              dotted = d;
              foreign = (any-All (λ suffix. has_suffix name suffix) (suffixes g)).0 s;
            },
            a,
          )

      unequal : name ≢ codes "localhost" → equal name (codes "localhost") ≡ false
      unequal h = elim (Bool-cases (equal name (codes "localhost"))) [
        | inl t ↦ absurd (h ((equal_iff name (codes "localhost")).0 t))
        | inr t ↦ t
      ]

      back :
          IsExternal g name × (check_addresses g o ≡ true)
          → (if is_local_name name
              then false
              else if not (contains name (codes "."))
              then false
              else if any (λ suffix. has_suffix name suffix) (suffixes g)
              then false
              else check_addresses g o)
            ≡ true
      back h =
          join (equal name (codes "localhost")) (has_suffix name (codes ".localhost"))
            (contains name (codes ".")) (any (λ suffix. has_suffix name suffix) (suffixes g))
            (check_addresses g o) (unequal h.0.no_localhost) h.0.no_child h.0.dotted
            ((any-All (λ suffix. has_suffix name suffix) (suffixes g)).1 h.0.foreign) h.1

  module _ (parses : (s ip : Bytes) → net.parse_ip s ≡ some ip → IsAddress ip) where
    -- If what is parsed and what is resolved are addresses of 4 or 16 bytes, the guard lets a host through exactly if it is, but
    -- for white space around it, an address in none of the blocked ranges (loopback, link-local, unspecified, multicast, those
    -- that are configured) and not the API server's, or an external name of which every address that is found is one such.
    pub check-IsReachable :
        (host : Bytes) → (check net (some g) host ≡ true) ↔ IsReachable net g (trim_space host)
    unfolding check
    check-IsReachable host = by_parse (net.parse_ip (trim_space host)) refl
      where
        by_parse :
            (o : Option Bytes)
            → net.parse_ip (trim_space host) ≡ o
            → (check_host net g (trim_space host) o ≡ true) ↔ IsReachable net g (trim_space host)
        by_parse (some ip) e =
            let (there, back) = check_ip-IsOutside g ip (parses (trim_space host) ip e) in
            (λ h. literal ip e (there h), λ h. from_literal back h)
          where
            from_literal :
                (IsOutside g ip → check_ip g ip ≡ true)
                → IsReachable net g (trim_space host)
                → check_ip g ip ≡ true
            from_literal back (literal other k out) =
                let same : other ≡ ip = cc in back (subst (IsOutside g) same out)
            from_literal back (named k ext addrs) = absurd cc
        by_parse none e =
            let (there, back) =
              check_name-IsExternal (net.lower (trim_dot (trim_space host)))
                (net.lookup_ip_addr (trim_space host)) in
            let (to, fro) =
              check_addresses-All (trim_space host) (net.lookup_ip_addr (trim_space host)) refl in
            (
              λ h. let (ext, a) = there h in named e ext (to a),
              λ h. let (ext, addrs) = from_named h in back (ext, fro addrs),
            )
          where
            from_named :
                IsReachable net g (trim_space host)
                → IsExternal g (net.lower (trim_dot (trim_space host)))
                  × ((addrs : List Bytes)
                      → net.lookup_ip_addr (trim_space host) ≡ some addrs
                      → All (IsOutside g) addrs)
            from_named (literal other k out) = absurd cc
            from_named (named k ext addrs) = (ext, addrs)
