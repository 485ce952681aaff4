-- ===== src/Naming/Label.antt =====
-- What `Sanitize` and `fitSegment` produce, against what `ValidateLabel` accepts.
use waas.Prelude.{
  ℕ, zero, suc, ◌+◌, ◌-◌, ◌<◌, ◌≤◌, ◌≡◌, refl, inl, inr, Bool, true, false, ◌&&◌, ◌||◌, List, [],
  ◌∷◌, ◌++◌, none, Bytes, All, All-append, arith, if◌then◌else◌, ltb, leb, ◌==◌, equal, length,
  take, length-append, length-take_le, Bool-cases,
}
use waas.Naming.{
  Tables, unless_dash, is_alnum, trim_dashes, hex, validate_label, label_from, letters_from,
  in_limit, normalize_label, or_x, sanitize_with_limit, sanitize, suffix, fit_segment,
}

-- letters, digits and dashes
abbrev pub is_inner : ℕ → Bool
is_inner c = is_alnum c || c == b'-'

abbrev pub Inner : Bytes → Type 0
Inner s = All (λ c. is_inner c ≡ true) s

abbrev pub starts : Bytes → Bool
starts [] = false
starts (c ∷ s) = is_alnum c

abbrev pub ends : Bytes → Bool
ends [] = false
ends (c ∷ []) = is_alnum c
ends (c ∷ d ∷ s) = ends (d ∷ s)

-- A DNS-1123 label of any length.
pub record IsLabel (s : Bytes) : Type 0 where
  pub inner : Inner s
  pub begins : starts s ≡ true
  pub closes : ends s ≡ true

label_from-Inner :
    (n i : ℕ) (s : Bytes)
    → 0 < i
    → i + length s ≡ n
    → Inner s
    → ends s ≡ true
    → label_from n i s ≡ true
unfolding label_from
label_from-Inner n i [] pos e h k = refl
label_from-Inner n i (c ∷ []) pos e h k = let a = h.0 in ground arith
label_from-Inner n i (c ∷ d ∷ s) pos e h k =
    let rest = label_from-Inner n (i + 1) (d ∷ s) (omega arith) (omega arith) h.1 k in
    let a = h.0 in rw rest (ground arith)

label_from-IsLabel : (s : Bytes) → IsLabel s → label_from (length s) 0 s ≡ true
unfolding label_from
label_from-IsLabel [] h = absurd (let b = h.begins in cc)
label_from-IsLabel (c ∷ []) h = let b = h.begins in ground arith
label_from-IsLabel (c ∷ d ∷ s) h =
    let rest =
      label_from-Inner (length (c ∷ d ∷ s)) 1 (d ∷ s) (omega arith) (omega arith) h.inner.1
        h.closes in
    let b = h.begins in rw rest (ground arith)

-- `ValidateLabel` accepts a label of at most 63 bytes.
pub validate_label-IsLabel : (s : Bytes) → IsLabel s → length s ≤ 63 → validate_label s ≡ none
unfolding validate_label equal
validate_label-IsLabel [] h le = absurd (let b = h.begins in cc)
validate_label-IsLabel (c ∷ s) h le = let e = label_from-IsLabel (c ∷ s) h in ground arith

-- an empty text, or a label
abbrev pub IsLabelOr : Bytes → Type 0
IsLabelOr [] = Unit
IsLabelOr (c ∷ s) = IsLabel (c ∷ s)

-- what follows a letter still ends in one
abbrev EndsOr : Bytes → Type 0
EndsOr [] = Unit
EndsOr (c ∷ s) = ends (c ∷ s) ≡ true

ends-cons : (c : ℕ) (s : Bytes) → is_alnum c ≡ true → EndsOr s → ends (c ∷ s) ≡ true
ends-cons c [] a h = a
ends-cons c (d ∷ s) a h = h

abbrev StartsOr : Bytes → Type 0
StartsOr [] = Unit
StartsOr (c ∷ s) = is_alnum c ≡ true

IsLabelOr-parts : (s : Bytes) → Inner s → StartsOr s → EndsOr s → IsLabelOr s
IsLabelOr-parts [] h k e = tt
IsLabelOr-parts (c ∷ s) h k e = record { inner = h; begins = k; closes = e }

Inner-take : (n : ℕ) (s : Bytes) → Inner s → Inner (take n s)
Inner-take zero s h = tt
Inner-take (suc n) [] h = tt
Inner-take (suc n) (c ∷ s) h = (h.0, Inner-take n s h.1)

StartsOr-take : (n : ℕ) (s : Bytes) → StartsOr s → StartsOr (take n s)
StartsOr-take zero s h = tt
StartsOr-take (suc n) [] h = tt
StartsOr-take (suc n) (c ∷ s) h = h

trim_parts :
    (s : Bytes)
    → Inner s
    → Inner (trim_dashes s) × EndsOr (trim_dashes s) × (length (trim_dashes s) ≤ length s)
unfolding trim_dashes
trim_parts [] h = (tt, tt, omega arith)
trim_parts (c ∷ s) h =
    let (inner, closes, le) = trim_parts s h.1 in by_rest (trim_dashes s) inner closes le
  where
    by_rest :
        (r : Bytes)
        → Inner r
        → EndsOr r
        → length r ≤ length s
        → Inner (unless_dash c r)
          × EndsOr (unless_dash c r)
          × (length (unless_dash c r) ≤ suc (length s))
    by_rest [] inner closes le = elim (Bool-cases (c == b'-')) [
      | inl e ↦ rw e (tt, tt, omega arith)
      | inr e ↦ rw e ((h.0, tt), (let a = h.0 in ground arith), omega arith)
    ]
    by_rest (d ∷ r) inner closes le = ((h.0, inner), closes, omega arith)

unless_dash-StartsOr : (c : ℕ) (r : Bytes) → is_alnum c ≡ true → StartsOr (unless_dash c r)
unless_dash-StartsOr c [] h = elim (Bool-cases (c == b'-')) [ inl e ↦ rw e tt | inr e ↦ rw e h ]
unless_dash-StartsOr c (d ∷ r) h = h

StartsOr-trim : (s : Bytes) → StartsOr s → StartsOr (trim_dashes s)
unfolding trim_dashes
StartsOr-trim [] h = tt
StartsOr-trim (c ∷ s) h = unless_dash-StartsOr c (trim_dashes s) h

shortened-IsLabelOr :
    (n : ℕ) (out : Bytes)
    → Inner out
    → StartsOr out
    → EndsOr out
    → let t = (if ltb n (length out) then trim_dashes (take n out) else out) in
      IsLabelOr t × (length t ≤ n)
shortened-IsLabelOr n out inner begins closes =
    let (trimmed, end_of_cut, shorter) = trim_parts (take n out) (Inner-take n out inner) in
    elim (Bool-cases (ltb n (length out))) [
      | inl e ↦
          let le : length (take n out) ≡ n = length-take_le n out (ground arith) in
          rw e (
            IsLabelOr-parts (trim_dashes (take n out)) trimmed
                (StartsOr-trim (take n out) (StartsOr-take n out begins)) end_of_cut,
            omega arith,
          )
      | inr e ↦ rw e (IsLabelOr-parts out inner begins closes, ground arith)
    ]

module _ (tables : Tables) where
  open tables use {nfkd, is_mark, to_lower, digest}

  letters_cases :
      (P : Bytes → Type 0) (started pending : Bool) (r : ℕ) (rs : List ℕ)
      → P (letters_from tables started pending rs)
      → P (letters_from tables started true rs)
      → (is_alnum (to_lower r) ≡ true → P (to_lower r ∷ letters_from tables true false rs))
      → (is_alnum (to_lower r) ≡ true
          → started ≡ true
          → P (b'-' ∷ to_lower r ∷ letters_from tables true false rs))
      → P (letters_from tables started pending (r ∷ rs))
  unfolding letters_from
  letters_cases P started pending r rs skipped dashed next after_dash =
      elim (Bool-cases (is_mark r)) [
        | inl m ↦ rw m skipped
        | inr m ↦ rw m (elim (Bool-cases (is_alnum (to_lower r))) [
          | inr a ↦ rw a dashed
          | inl a ↦ rw a (by_dash pending started a (next a) (after_dash a))
        ])
      ]
    where
      by_dash :
          (p t : Bool)
          → is_alnum (to_lower r) ≡ true
          → P (to_lower r ∷ letters_from tables true false rs)
          → (t ≡ true → P (b'-' ∷ to_lower r ∷ letters_from tables true false rs))
          → P (
              if p && t
              then b'-' ∷ to_lower r ∷ letters_from tables true false rs
              else to_lower r ∷ letters_from tables true false rs)
      by_dash false t a n d = n
      by_dash true false a n d = n
      by_dash true true a n d = d refl

  letters_from-Inner :
      (started pending : Bool) (rs : List ℕ) → Inner (letters_from tables started pending rs)
  letters_from-Inner started pending [] = unfold letters_from in tt
  letters_from-Inner started pending (r ∷ rs) =
      let b = letters_from-Inner true false rs in
      letters_cases Inner started pending r rs (letters_from-Inner started pending rs)
        (letters_from-Inner started true rs) (λ a. (ground arith, b))
        (λ a t. (ground arith, (ground arith, b)))

  letters_from-EndsOr :
      (started pending : Bool) (rs : List ℕ) → EndsOr (letters_from tables started pending rs)
  letters_from-EndsOr started pending [] = unfold letters_from in tt
  letters_from-EndsOr started pending (r ∷ rs) =
      let b = letters_from-EndsOr true false rs in
      letters_cases EndsOr started pending r rs (letters_from-EndsOr started pending rs)
        (letters_from-EndsOr started true rs)
        (λ a. ends-cons (to_lower r) (letters_from tables true false rs) a b)
        (λ a t. ends-cons (to_lower r) (letters_from tables true false rs) a b)

  letters_from-StartsOr :
      (pending : Bool) (rs : List ℕ) → StartsOr (letters_from tables false pending rs)
  letters_from-StartsOr pending [] = unfold letters_from in tt
  letters_from-StartsOr pending (r ∷ rs) =
      letters_cases StartsOr false pending r rs (letters_from-StartsOr pending rs)
        (letters_from-StartsOr true rs) (λ a. a) (λ a t. cc)

  normalize_label-IsLabelOr :
      (s : Bytes) (limit : ℕ)
      → IsLabelOr (normalize_label tables s limit)
        × (length (normalize_label tables s limit) ≤ in_limit tables limit)
  unfolding normalize_label
  normalize_label-IsLabelOr s limit =
      shortened-IsLabelOr (in_limit tables limit) (letters_from tables false false (nfkd s))
        (letters_from-Inner false false (nfkd s)) (letters_from-StartsOr false (nfkd s))
        (letters_from-EndsOr false false (nfkd s))

  or_x-IsLabel :
      (s : Bytes) (n : ℕ)
      → 0 < n
      → IsLabelOr s
      → length s ≤ n
      → IsLabel (or_x tables s) × (length (or_x tables s) ≤ n)
  or_x-IsLabel [] n pos h le =
      (record { inner = (refl, tt); begins = refl; closes = refl }, omega arith)
  or_x-IsLabel (c ∷ s) n pos h le = (h, le)

  sanitize_with_limit-short :
      (s : Bytes) (limit : ℕ)
      → IsLabel (sanitize_with_limit tables s limit)
        × (length (sanitize_with_limit tables s limit) ≤ in_limit tables limit)
  unfolding sanitize_with_limit
  sanitize_with_limit-short s limit =
      let (label, le) = normalize_label-IsLabelOr s limit in
      or_x-IsLabel (normalize_label tables s limit) (in_limit tables limit) (ground arith) label le

  -- `SanitizeWithLimit` makes of any text, at any limit, a label that `ValidateLabel` accepts. It has at most as many bytes as
  -- the limit if this lies between 1 and 63, and at most 63 otherwise.
  pub sanitize_with_limit-IsLabel :
      (s : Bytes) (limit : ℕ)
      → IsLabel (sanitize_with_limit tables s limit)
        × (validate_label (sanitize_with_limit tables s limit) ≡ none)
        × (length (sanitize_with_limit tables s limit)
            ≤ (if limit == 0 || ltb 63 limit then 63 else limit))
  sanitize_with_limit-IsLabel s limit =
      let (label, le) = sanitize_with_limit-short s limit in
      (label, validate_label-IsLabel (sanitize_with_limit tables s limit) label (ground arith), le)

  hex-Inner : (s : Bytes) → Inner (hex s)
  unfolding hex
  hex-Inner [] = tt
  hex-Inner (b ∷ s) = (ground arith, (ground arith, hex-Inner s))

hex-length : (s : Bytes) → length (hex s) ≡ length s + length s
unfolding hex
hex-length [] = omega arith
hex-length (b ∷ s) = omega (arith, hex-length s)

-- a label, and behind it a dash and more letters
pub IsLabel-append : (s t : Bytes) → IsLabel s → Inner t → ends t ≡ true → IsLabel (s ++ b'-' ∷ t)
IsLabel-append s t h inner closes = record {
  inner = All-append (λ c. is_inner c ≡ true) s (b'-' ∷ t) h.inner (refl, inner);
  begins = starts-append s h.begins;
  closes = ends-append s;
}
  where
    starts-append : (s : Bytes) → starts s ≡ true → starts (s ++ b'-' ∷ t) ≡ true
    starts-append [] k = cc
    starts-append (c ∷ s) k = k

    dash : (t : Bytes) → ends t ≡ true → ends (b'-' ∷ t) ≡ true
    dash [] k = cc
    dash (c ∷ t) k = k

    ends-append : (s : Bytes) → ends (s ++ b'-' ∷ t) ≡ true
    ends-append [] = dash t closes
    ends-append (c ∷ []) = dash t closes
    ends-append (c ∷ d ∷ s) = ends-append (d ∷ s)

-- Letters and digits only, and not none, end in one.
all_alnum-ends : (s : Bytes) → All (λ c. is_alnum c ≡ true) s → 0 < length s → ends s ≡ true
all_alnum-ends [] h pos = absurd (omega arith)
all_alnum-ends (c ∷ []) h pos = h.0
all_alnum-ends (c ∷ d ∷ s) h pos = all_alnum-ends (d ∷ s) h.1 (omega arith)

hex-alnum : (s : Bytes) → All (λ c. is_alnum c ≡ true) (hex s)
unfolding hex
hex-alnum [] = tt
hex-alnum (b ∷ s) = (ground arith, (ground arith, hex-alnum s))

alnum-take :
    (n : ℕ) (s : Bytes) → All (λ c. is_alnum c ≡ true) s → All (λ c. is_alnum c ≡ true) (take n s)
alnum-take zero s h = tt
alnum-take (suc n) [] h = tt
alnum-take (suc n) (c ∷ s) h = (h.0, alnum-take n s h.1)

module _ (tables : Tables) (digest_length : (raw : Bytes) → length (tables.digest raw) ≡ 32) where
  five : (raw : Bytes) → length (take 5 (hex (tables.digest raw))) ≡ 5
  five raw =
      length-take_le 5 (hex (tables.digest raw))
        (omega (arith, hex-length (tables.digest raw), digest_length raw))

  suffix-length : (raw : Bytes) → length (suffix tables raw) ≡ 6
  unfolding suffix
  suffix-length raw = omega (arith, five raw)

  suffixed :
      (raw : Bytes) (h : ℕ) {budget : ℕ}
      → 0 < h
      → h + 6 ≤ budget
      → budget ≤ 63
      → IsLabel (sanitize_with_limit tables raw h ++ suffix tables raw)
        × (length (sanitize_with_limit tables raw h ++ suffix tables raw) ≤ budget)
  suffixed raw h {budget} pos le small =
      let (label, bounded) = sanitize_with_limit-short tables raw h in
      let short : length (sanitize_with_limit tables raw h) ≤ h = ground arith in
      let tail : Bytes = take 5 (hex (tables.digest raw)) in
      let alnum = alnum-take 5 (hex (tables.digest raw)) (hex-alnum (tables.digest raw)) in
      (
        unfold suffix in
            IsLabel-append (sanitize_with_limit tables raw h) tail label
              (Inner-take 5 (hex (tables.digest raw)) (hex-Inner tables (tables.digest raw)))
              (all_alnum-ends tail alnum (omega (arith, five raw))),
        omega (
          arith,
          length-append (sanitize_with_limit tables raw h) (suffix tables raw),
          suffix-length raw,
        ),
      )

  -- `fitSegment` makes a label that fits its budget, if the budget has room for a letter and the hash.
  pub fit_segment-IsLabel :
      (raw : Bytes) (budget : ℕ)
      → 7 ≤ budget
      → budget ≤ 63
      → IsLabel (fit_segment tables raw budget) × (length (fit_segment tables raw budget) ≤ budget)
  unfolding fit_segment
  fit_segment-IsLabel raw budget room small =
      by_length (leb (length (sanitize tables raw)) budget) refl
    where
      head : ℕ
      head =
          if ltb (budget - length (suffix tables raw)) 1
          then 1
          else budget - length (suffix tables raw)

      head_eq : head ≡ budget - 6
      head_eq = let l = suffix-length raw in ground arith

      with_suffix :
          IsLabel (sanitize_with_limit tables raw head ++ suffix tables raw)
          × (length (sanitize_with_limit tables raw head ++ suffix tables raw) ≤ budget)
      with_suffix = suffixed raw head (omega (arith, head_eq)) (omega (arith, head_eq)) small

      by_length :
          (b : Bool)
          → leb (length (sanitize tables raw)) budget ≡ b
          → let t =
              (if b
                then sanitize tables raw
                else sanitize_with_limit tables raw head ++ suffix tables raw) in
            IsLabel t × (length t ≤ budget)
      by_length true e =
          let (label, le) = sanitize_with_limit-short tables raw 63 in (label, ground arith)
      by_length false e = with_suffix
