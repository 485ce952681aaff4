-- ===== src/HostGuard.antt =====
-- api-server/internal/service/remote_host_guard.go: which hostnames a remote workspace may have. What net.ParseIP reads,
-- what the resolver answers and the case folding of strings.ToLower are fields of `Network`; an address is the list of
-- its bytes, 4 or 16 of them.
pub mod Ranges
pub mod Outside
use waas.Prelude.{
  ℕ, zero, suc, ◌-◌, ◌/◌, ◌%◌, ◌^◌, Bool, true, false, not, ◌&&◌, ◌||◌, List, [], ◌∷◌, ◌++◌, Option,
  none, some, Bytes, codes, if◌then◌else◌, ltb, ◌==◌, length, drop, any, equal, has_prefix,
  contains,
}
use waas.Metakeys.{has_suffix}
use waas.Policy.Overrides.{trim_space}

-- `net.IPNet`: its bytes, and the leading ones of its mask over the shortest form of the address
pub record Cidr : Type 0 where
  pub address : Bytes
  pub ones : ℕ

pub record Network : Type 0 where
  pub parse_ip : Bytes → Option Bytes
  pub parse_cidr : Bytes → Option Cidr
  pub lookup_ip_addr : Bytes → Option (List Bytes)
  pub lower : Bytes → Bytes

-- `HostGuard`
pub record HostGuard : Type 0 where
  pub cluster_domain : Bytes
  pub blocked : List Cidr
  pub api_server_ip : Option Bytes

abbrev pub zeros : ℕ → Bytes
zeros zero = []
zeros (suc n) = 0 ∷ zeros n

abbrev pub v4_in_v6 : Bytes
v4_in_v6 = zeros 10 ++ 255 ∷ 255 ∷ []

-- `IP.To4`, and an address in its shortest form
abbrev pub to4 : Bytes → Option Bytes
to4 ip =
    if length ip == 4
    then some ip
    else if length ip == 16 && has_prefix ip v4_in_v6
    then some (drop 12 ip)
    else none

abbrev pub or_self : Option Bytes → Bytes → Bytes
or_self none ip = ip
or_self (some short) ip = short

abbrev pub shortest : Bytes → Bytes
shortest ip = or_self (to4 ip) ip

-- `IP.Equal`
abbrev pub ip_equal : Bytes → Bytes → Bool
ip_equal a b = equal (shortest a) (shortest b)

abbrev pub first_byte : Bytes → ℕ
first_byte [] = 0
first_byte (b ∷ bs) = b

abbrev pub second_byte : Bytes → ℕ
second_byte [] = 0
second_byte (b ∷ bs) = first_byte bs

abbrev pub loopback6 : Bytes
loopback6 = zeros 15 ++ 1 ∷ []

-- the tests of net on an address: the four bytes if it has such a form, and the address; a mask is a division
abbrev pub is_loopback : Option Bytes → Bytes → Bool
is_loopback (some ip4) ip = first_byte ip4 == 127
is_loopback none ip = ip_equal ip loopback6

abbrev pub is_link_local_unicast : Option Bytes → Bytes → Bool
is_link_local_unicast (some ip4) ip = first_byte ip4 == 169 && second_byte ip4 == 254
is_link_local_unicast none ip = length ip == 16 && first_byte ip == 254 && second_byte ip / 64 == 2

abbrev pub is_unspecified : Bytes → Bool
is_unspecified ip = ip_equal ip (zeros 4) || ip_equal ip (zeros 16)

abbrev pub is_multicast : Option Bytes → Bytes → Bool
is_multicast (some ip4) ip = first_byte ip4 / 16 == 14
is_multicast none ip = length ip == 16 && first_byte ip == 255

abbrev pub is_interface_local_multicast : Bytes → Bool
is_interface_local_multicast ip =
    length ip == 16 && first_byte ip == 255 && second_byte ip % 16 == 1

-- do the first bits agree?
abbrev pub same_bits : ℕ → Bytes → Bytes → Bool
same_bits zero xs ys = true
same_bits (suc n) [] ys = true
same_bits (suc n) (x ∷ xs) [] = true
same_bits (suc n) (x ∷ xs) (y ∷ ys) =
    let last = x / 2 ^ (8 - suc n) == y / 2 ^ (8 - suc n) in
    let rest = same_bits (suc n - 8) xs ys in if ltb n 7 then last else x == y && rest

-- `IPNet.Contains`
abbrev pub in_cidr : Bytes → Cidr → Bool
in_cidr ip cidr =
    length (shortest ip) == length (shortest cidr.address)
    && same_bits cidr.ones (shortest ip) (shortest cidr.address)

abbrev pub is_api_server : Option Bytes → Bytes → Bool
is_api_server none ip = false
is_api_server (some own) ip = ip_equal ip own

-- `HostGuard.checkIP`: may the address be reached?
unfoldable pub check_ip : HostGuard → Bytes → Bool
check_ip g ip =
    if is_loopback (to4 ip) ip
      || is_link_local_unicast (to4 ip) ip
      || is_unspecified ip
      || is_multicast (to4 ip) ip
      || is_interface_local_multicast ip
    then false
    else if is_api_server g.api_server_ip ip
    then false
    else not (any (in_cidr ip) g.blocked)

abbrev pub trim_dot : Bytes → Bytes
trim_dot [] = []
trim_dot (c ∷ []) = if c == b'.' then [] else c ∷ []
trim_dot (c ∷ d ∷ cs) = c ∷ trim_dot (d ∷ cs)

abbrev pub suffixes : HostGuard → List Bytes
suffixes g = codes ".svc" ∷ (codes ".svc." ++ g.cluster_domain) ∷ (b'.' ∷ g.cluster_domain) ∷ []

-- every address that is returned is filtered; a resolution that fails lets the host through
abbrev pub check_addresses : HostGuard → Option (List Bytes) → Bool
check_addresses g none = true
check_addresses g (some addrs) = not (any (λ ip. not (check_ip g ip)) addrs)

abbrev pub is_local_name : Bytes → Bool
is_local_name name = equal name (codes "localhost") || has_suffix name (codes ".localhost")

unfoldable pub check_name : HostGuard → Bytes → Option (List Bytes) → Bool
check_name g name addrs =
    if is_local_name name
    then false
    else if not (contains name (codes "."))
    then false
    else if any (λ suffix. has_suffix name suffix) (suffixes g)
    then false
    else check_addresses g addrs

abbrev pub check_host : Network → HostGuard → Bytes → Option Bytes → Bool
check_host net g host (some ip) = check_ip g ip
check_host net g host none = check_name g (net.lower (trim_dot host)) (net.lookup_ip_addr host)

-- `HostGuard.Check` on a guard, or none
unfoldable pub check : Network → Option HostGuard → Bytes → Bool
check net none host = true
check net (some g) host = check_host net g (trim_space host) (net.parse_ip (trim_space host))

-- `strings.Trim(s, ".")`
abbrev pub trim_front : Bytes → Bytes
trim_front [] = []
trim_front (c ∷ cs) = let rest = trim_front cs in if c == b'.' then rest else c ∷ cs

abbrev pub trim_back : Bytes → Bytes
trim_back [] = []
trim_back (c ∷ cs) = let rest = trim_back cs in if c == b'.' && equal rest [] then [] else c ∷ rest

-- an environment variable that is not an address counts as unset
abbrev pub api_server : Network → Bytes → Option Bytes
api_server net host = let ip = net.parse_ip host in if equal host [] then none else ip

-- `NewHostGuard`, with the value of KUBERNETES_SERVICE_HOST
unfoldable pub new_host_guard : Network → Bytes → Bytes → List Cidr → HostGuard
new_host_guard net service_host cluster_domain blocked = record {
  cluster_domain = net.lower (
      trim_back
        (trim_front (if equal cluster_domain [] then codes "cluster.local" else cluster_domain)));
  blocked = blocked;
  api_server_ip = api_server net service_host;
}

abbrev pub cidr_first : Option Cidr → Option (List Cidr) → Option (List Cidr)
cidr_first none rest = none
cidr_first (some c) none = none
cidr_first (some c) (some cs) = some (c ∷ cs)

-- `ParseBlockedCIDRs`
unfoldable pub parse_blocked_cidrs : Network → List Bytes → Option (List Cidr)
parse_blocked_cidrs net [] = some []
parse_blocked_cidrs net (c ∷ cs) =
    cidr_first (net.parse_cidr (trim_space c)) (parse_blocked_cidrs net cs)
