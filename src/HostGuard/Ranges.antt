-- ===== src/HostGuard/Ranges.antt =====
-- The tests of net on an address, as ranges of addresses.
use waas.Prelude.{
  ℕ, ◌/◌, ◌%◌, ◌≡◌, refl, ◌∙◌, ap, sym, ◌≢◌, ◌↔◌, inl, inr, Bool, true, false, not, ◌&&◌, ◌||◌,
  List, [], ◌∷◌, Option, none, some, Bytes, if◌then◌else◌, arith, ◌==◌, any, equal, equal_iff,
  has_prefix, Bool-cases, All,
}
use waas.HostGuard.{
  Cidr, HostGuard, zeros, v4_in_v6, to4, shortest, loopback6, is_loopback, is_link_local_unicast,
  is_unspecified, is_multicast, is_interface_local_multicast, in_cidr, is_api_server, check_ip,
}

-- 127.0.0.0/8, ::1, 169.254.0.0/16, fe80::/10, 0.0.0.0, ::, 224.0.0.0/4 and ff00::/8
abbrev pub own_ranges : List Cidr
own_ranges =
    record { address = 127 ∷ zeros 3; ones = 8 }
    ∷ record { address = loopback6; ones = 128 }
    ∷ record { address = 169 ∷ 254 ∷ zeros 2; ones = 16 }
    ∷ record { address = 254 ∷ 128 ∷ zeros 14; ones = 10 }
    ∷ record { address = zeros 4; ones = 32 }
    ∷ record { address = zeros 16; ones = 128 }
    ∷ record { address = 224 ∷ zeros 3; ones = 4 }
    ∷ record { address = 255 ∷ zeros 15; ones = 8 }
    ∷ []

-- An address has 4 or 16 bytes.
pub data IsAddress : Bytes → Type 0 where
  v4 : (a b c d : ℕ) → IsAddress (a ∷ b ∷ c ∷ d ∷ [])
  v6 :
      (a b c d e f g h i j k l m n o p : ℕ)
      → IsAddress (a ∷ b ∷ c ∷ d ∷ e ∷ f ∷ g ∷ h ∷ i ∷ j ∷ k ∷ l ∷ m ∷ n ∷ o ∷ p ∷ [])

abbrev is_internal : Bytes → Bool
is_internal ip =
    is_loopback (to4 ip) ip
    || is_link_local_unicast (to4 ip) ip
    || is_unspecified ip
    || is_multicast (to4 ip) ip
    || is_interface_local_multicast ip

is_internal-own_ranges : (ip : Bytes) → IsAddress ip → is_internal ip ≡ any (in_cidr ip) own_ranges
unfolding equal has_prefix
is_internal-own_ranges _ (v4 a b c d) = ground arith
is_internal-own_ranges _ (v6 a b c d e f g h i j k l m n o p) =
    elim (Bool-cases
      (has_prefix (a ∷ b ∷ c ∷ d ∷ e ∷ f ∷ g ∷ h ∷ i ∷ j ∷ k ∷ l ∷ m ∷ n ∷ o ∷ p ∷ []) v4_in_v6)) [
        | inl t ↦
            let apart : a == 255 ≡ false = ground arith in
            rw (t, apart)
              (short (m == 127) (m == 169) (n == 254) (equal (m ∷ n ∷ o ∷ p ∷ []) (zeros 4))
                (equal (m ∷ n ∷ o ∷ p ∷ []) (zeros 16)) (m / 16 == 14)
                (nowhere (m == 0) (n == 0) (o == 0) (p == 0)))
        | inr t ↦
            rw (t, t)
              (long
                (equal (a ∷ b ∷ c ∷ d ∷ e ∷ f ∷ g ∷ h ∷ i ∷ j ∷ k ∷ l ∷ m ∷ n ∷ o ∷ p ∷ [])
                  loopback6)
                (a == 254) (b / 64 == 2)
                (equal (a ∷ b ∷ c ∷ d ∷ e ∷ f ∷ g ∷ h ∷ i ∷ j ∷ k ∷ l ∷ m ∷ n ∷ o ∷ p ∷ [])
                  (zeros 4))
                (equal (a ∷ b ∷ c ∷ d ∷ e ∷ f ∷ g ∷ h ∷ i ∷ j ∷ k ∷ l ∷ m ∷ n ∷ o ∷ p ∷ [])
                  (zeros 16))
                (a == 255) (b % 16 == 1) (nowhere (a == 0) (b == 0) (c == 0) (d == 0)))
      ]
  where
    nowhere : (x y z w : Bool) → x && (y && (z && (w && false))) ≡ false
    nowhere false y z w = refl
    nowhere true false z w = refl
    nowhere true true false w = refl
    nowhere true true true false = refl
    nowhere true true true true = refl

    short :
        (lo li lj u v mc : Bool)
        → v ≡ false
        → lo || li && lj || (u || v) || mc || false
          ≡ lo && true || (li && (lj && true) || (u || (mc || false)))
    short lo li lj u v mc never = ground arith

    long :
        (lo li lj v u mc q : Bool)
        → v ≡ false
        → lo || li && lj || (v || u) || mc || mc && q
          ≡ lo || (li && lj || (u || (mc && true || false)))
    long lo li lj v u mc q never = ground arith

pub any-All {ℓ} :
    {A : Type ℓ} (p : A → Bool) (xs : List A) → (any p xs ≡ false) ↔ All (λ x. p x ≡ false) xs
any-All p [] = (λ h. tt, λ h. refl)
any-All p (x ∷ xs) =
    let (there, back) = any-All p xs in
    (
      λ h. (ground arith, there (ground arith)),
      λ h. let q = h.0 in let r = back h.1 in ground arith,
    )

-- The address lies in none of the ranges, those that are configured included, and is not that of the API server.
pub record IsOutside (g : HostGuard) (ip : Bytes) : Type 0 where
  pub no_own : All (λ c. in_cidr ip c ≡ false) own_ranges
  pub no_blocked : All (λ c. in_cidr ip c ≡ false) g.blocked
  pub no_server : (own : Bytes) → g.api_server_ip ≡ some own → shortest ip ≢ shortest own

is_api_server_iff :
    (o : Option Bytes) (ip : Bytes)
    → (is_api_server o ip ≡ false) ↔ ((own : Bytes) → o ≡ some own → shortest ip ≢ shortest own)
is_api_server_iff none ip = (λ h own e. absurd cc, λ h. refl)
is_api_server_iff (some own) ip = (there, back)
  where
    there :
        equal (shortest ip) (shortest own) ≡ false
        → (other : Bytes) → some own ≡ some other
        → shortest ip ≢ shortest other
    there h other e same =
        let k : own ≡ other = cc in
        let t = (equal_iff (shortest ip) (shortest own)).1 (same ∙ ap shortest (sym k)) in cc

    back :
        ((other : Bytes) → some own ≡ some other → shortest ip ≢ shortest other)
        → equal (shortest ip) (shortest own) ≡ false
    back h = elim (Bool-cases (equal (shortest ip) (shortest own))) [
      | inl t ↦ absurd (h own refl ((equal_iff (shortest ip) (shortest own)).0 t))
      | inr t ↦ t
    ]

pub check_ip-IsOutside :
    (g : HostGuard) (ip : Bytes) → IsAddress ip → (check_ip g ip ≡ true) ↔ IsOutside g ip
unfolding check_ip
check_ip-IsOutside g ip address = (there, back)
  where
    apart :
        (i s b : Bool)
        → (if i then false else if s then false else not b) ≡ true
        → (i ≡ false) × (s ≡ false) × (b ≡ false)
    apart i s b h = (ground arith, ground arith, ground arith)

    join :
        (i s b : Bool)
        → i ≡ false
        → s ≡ false
        → b ≡ false
        → (if i then false else if s then false else not b) ≡ true
    join i s b h k e = ground arith

    there :
        (if is_internal ip
            then false
            else if is_api_server g.api_server_ip ip
            then false
            else not (any (in_cidr ip) g.blocked))
          ≡ true
        → IsOutside g ip
    there h =
        let (i, s, b) =
          apart (is_internal ip) (is_api_server g.api_server_ip ip) (any (in_cidr ip) g.blocked)
            h in
        record {
          no_own =
              (any-All (in_cidr ip) own_ranges).0 (sym (is_internal-own_ranges ip address) ∙ i);
          no_blocked = (any-All (in_cidr ip) g.blocked).0 b;
          no_server = (is_api_server_iff g.api_server_ip ip).0 s;
        }

    back :
        IsOutside g ip
        → (if is_internal ip
            then false
            else if is_api_server g.api_server_ip ip
            then false
            else not (any (in_cidr ip) g.blocked))
          ≡ true
    back o =
        join (is_internal ip) (is_api_server g.api_server_ip ip) (any (in_cidr ip) g.blocked)
          (is_internal-own_ranges ip address ∙ (any-All (in_cidr ip) own_ranges).1 o.no_own)
          ((is_api_server_iff g.api_server_ip ip).1 o.no_server)
          ((any-All (in_cidr ip) g.blocked).1 o.no_blocked)
