-- ===== src/Metakeys/Reserved.antt =====
-- Which keys are reserved.
use waas.Prelude.{
  ◌-◌, ◌≡◌, refl, ◌∙◌, ap, sym, ◌≢◌, ◌↔◌, ◌⊎◌, inl, inr, Bool, true, false, ◌||◌, List, [], ◌∷◌,
  ◌++◌, none, some, Bytes, All, In, arith, if◌then◌else◌, equal, equal_iff, length, take, drop, any,
  length-append, take-append-drop, drop-append_length, Bool-cases,
}
use waas.Metakeys.{
  reserved_key, denied_domains, cut, has_suffix, is_denied, check_domain, check_key,
}

cut-domain :
    (domain name : Bytes) → All (λ c. c ≢ b'/') domain → cut (domain ++ b'/' ∷ name) ≡ some domain
unfolding cut
cut-domain [] name h = refl
cut-domain (c ∷ domain) name h = let ne = h.0 in rw (cut-domain domain name h.1) (ground arith)

has_suffix-append : (front p : Bytes) → has_suffix (front ++ p) p ≡ true
unfolding has_suffix
has_suffix-append front p =
    let l = length-append front p in
    let d : drop (length (front ++ p) - length p) (front ++ p) ≡ p =
      ap (λ n. drop n (front ++ p)) {x = length (front ++ p) - length p} {y = length front}
        (omega (arith, l))
      ∙ drop-append_length front p in
    let e = (equal_iff (drop (length (front ++ p) - length p) (front ++ p)) p).1 d in
    ground (arith, l)

has_suffix_iff : (s p : Bytes) → (has_suffix s p ≡ true) ↔ ((front : Bytes) × (s ≡ front ++ p))
unfolding has_suffix
has_suffix_iff s p = (
  λ h.
      let e = (equal_iff (drop (length s - length p) s) p).0 (ground arith) in
      (
        take (length s - length p) s,
        sym (take-append-drop (length s - length p) s)
            ∙ ap (λ b. take (length s - length p) s ++ b) e,
      ),
  λ (front, e). ap (λ b. has_suffix b p) e ∙ has_suffix-append front p,
)

any_iff :
    (p : Bytes → Bool) (xs : List Bytes)
    → (any p xs ≡ true) ↔ ((x : Bytes) × In x xs × (p x ≡ true))
any_iff p [] = (λ h. cc, λ (x, i, h). elim i [ ])
any_iff p (y ∷ ys) =
    let (there, back) = any_iff p ys in
    (
      λ h. elim (Bool-cases (p y)) [
        | inl e ↦ (y, inl refl, e)
        | inr e ↦ let (x, i, t) = there (ground arith) in (x, inr i, t)
      ],
      λ (x, i, t). elim i [
        | inl same ↦ let e : p y ≡ true = ap p (sym same) ∙ t in ground arith
        | inr j ↦ let e = back (x, j, t) in ground arith
      ],
    )

abbrev pub IsBelow : Bytes → Bytes → Type 0
IsBelow domain denied = (domain ≡ denied) ⊎ ((front : Bytes) × (domain ≡ front ++ b'.' ∷ denied))

is_denied_iff : (domain denied : Bytes) → (is_denied domain denied ≡ true) ↔ IsBelow domain denied
is_denied_iff domain denied =
    let (there, back) = has_suffix_iff domain (b'.' ∷ denied) in
    (
      λ h. elim (Bool-cases (equal domain denied)) [
        | inl e ↦ inl ((equal_iff domain denied).0 e)
        | inr e ↦ inr (there (ground arith))
      ],
      λ h. elim h [
        | inl same ↦ let e = (equal_iff domain denied).1 same in ground arith
        | inr below ↦ or_true (equal domain denied) (back below)
      ],
    )
  where
    or_true : (b : Bool) {c : Bool} → c ≡ true → (b || c) ≡ true
    or_true true h = refl
    or_true false h = h

check_key-domain :
    (domain name : Bytes)
    → All (λ c. c ≢ b'/') domain
    → check_key (domain ++ b'/' ∷ name)
      ≡ (if any (is_denied domain) denied_domains then some reserved_key else none)
unfolding check_key
check_key-domain [] name h = ap (check_domain (b'/' ∷ name)) (cut-domain [] name h)
check_key-domain (c ∷ domain) name h =
    ap (check_domain (c ∷ (domain ++ b'/' ∷ name))) (cut-domain (c ∷ domain) name h)

-- A key with a domain is reserved exactly if its domain is a denied one or below a denied one: a
-- domain that only ends in the same letters is not.
pub check_key-reserved :
    (domain name : Bytes)
    → All (λ c. c ≢ b'/') domain
    → (check_key (domain ++ b'/' ∷ name) ≡ some reserved_key)
      ↔ ((denied : Bytes) × In denied denied_domains × IsBelow domain denied)
check_key-reserved domain name h =
    let (there, back) = any_iff (is_denied domain) denied_domains in
    (
      λ e.
          let (d, i, t) = there (
            tested (any (is_denied domain) denied_domains)
              (sym (check_key-domain domain name h) ∙ e)) in
          (d, i, (is_denied_iff domain d).0 t),
      λ (d, i, below).
          check_key-domain domain name h
          ∙ ap (λ b. if b then some reserved_key else none)
              (back (d, i, (is_denied_iff domain d).1 below)),
    )
  where
    tested : (b : Bool) → (if b then some reserved_key else none) ≡ some reserved_key → b ≡ true
    tested true e = refl
    tested false e = cc
