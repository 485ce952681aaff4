-- ===== src/Tests/HostGuard.antt =====
-- Runs of the host guard.
use waas.Prelude.{
  ◌≡◌, refl, ◌↔◌, inl, inr, true, false, List, [], ◌∷◌, ◌++◌, Option, none, some, Bytes, codes,
  if◌then◌else◌, equal, has_prefix, contains, Bool-cases, All,
}
use mathlib.Core.Path.{subst}
use waas.Metakeys.{has_suffix}
use waas.Policy.Overrides.{trim_space, trim_left, space_width}
use waas.HostGuard.{Network, HostGuard, v4_in_v6, check_ip, check_name, check, new_host_guard}
use waas.HostGuard.Ranges.{IsAddress, v4}
use waas.HostGuard.Outside.{IsReachable, check-IsReachable}

abbrev lan : Bytes
lan = 10 ∷ 0 ∷ 0 ∷ 7 ∷ []

abbrev parse : Bytes → Option Bytes
parse s = if equal s (codes "10.0.0.7") then some lan else none

abbrev lookup : Bytes → Option (List Bytes)
lookup s = some (lan ∷ [])

abbrev net : Network
net = record { parse_ip = parse; parse_cidr = λ s. none; lookup_ip_addr = lookup; lower = λ s. s }

-- 10.96.0.0/12 is the range of the services.
abbrev guard : HostGuard
guard =
    new_host_guard net (codes "10.0.0.8") []
      (record { address = 10 ∷ 96 ∷ 0 ∷ 0 ∷ []; ones = 12 } ∷ [])

service-test : check net (some guard) (codes "web.shop.svc") ≡ false
unfolding check check_name new_host_guard trim_space trim_left space_width equal has_suffix
    has_prefix contains
service-test = refl

lan-test : check net (some guard) (codes " 10.0.0.7 ") ≡ true
unfolding check check_ip new_host_guard trim_space trim_left space_width equal has_prefix
lan-test = refl

-- ::ffff:127.0.0.1
mapped-test : check_ip guard (v4_in_v6 ++ 127 ∷ 0 ∷ 0 ∷ 1 ∷ []) ≡ false
unfolding check_ip equal has_prefix new_host_guard
mapped-test = refl

parsed : (s ip : Bytes) → parse s ≡ some ip → IsAddress ip
parsed s ip h = elim (Bool-cases (equal s (codes "10.0.0.7"))) [
  | inl t ↦ let k = rw t at h in let same : lan ≡ ip = cc in subst IsAddress same (v4 10 0 0 7)
  | inr t ↦ absurd (let k = rw t at h in cc)
]

resolved : (s : Bytes) (addrs : List Bytes) → lookup s ≡ some addrs → All IsAddress addrs
resolved s addrs h =
    let same : lan ∷ [] ≡ addrs = cc in subst (All IsAddress) same (v4 10 0 0 7, tt)

check-IsReachable_example :
    (check net (some guard) (codes "10.0.0.7") ≡ true)
    ↔ IsReachable net guard (trim_space (codes "10.0.0.7"))
check-IsReachable_example = check-IsReachable net resolved guard parsed (codes "10.0.0.7")
