-- ===== src/Guac/Utf8/RoundTrip.antt =====
-- Runes read back from their encodings, and cut encodings.
use waas.Prelude.{
  ℕ, zero, suc, ◌<◌, ◌≤◌, ◌≡◌, refl, ◌≢◌, true, false, List, [], ◌∷◌, ◌++◌, Bytes, arith, length,
  take, length-append,
}
use waas.Guac.Utf8.{IsRune, encode_rune, decode_rune, full_rune, encode_runes}

pub decode_rune-encode_rune :
    (r : ℕ) (rest : Bytes)
    → IsRune r
    → decode_rune (encode_rune r ++ rest) ≡ (r, length (encode_rune r))
unfolding decode_rune encode_rune
decode_rune-encode_rune r rest h = ground arith

pub full_rune-encode_rune :
    (r : ℕ) (rest : Bytes) → IsRune r → full_rune (encode_rune r ++ rest) ≡ true
unfolding full_rune encode_rune
full_rune-encode_rune r rest h = ground arith

pub full_rune-take :
    (r k : ℕ) → IsRune r → k < length (encode_rune r) → full_rune (take k (encode_rune r)) ≡ false
unfolding full_rune encode_rune
full_rune-take r zero h lt = refl
full_rune-take r (suc zero) h lt = ground arith
full_rune-take r (suc (suc zero)) h lt = ground arith
full_rune-take r (suc (suc (suc zero))) h lt = ground arith
full_rune-take r (suc (suc (suc (suc k)))) h lt = absurd (ground arith)

pub encode_rune-ne-nil : (r : ℕ) (rest : Bytes) → encode_rune r ++ rest ≢ []
unfolding encode_rune
encode_rune-ne-nil r rest h = ground arith

pub encode_rune-length : (r : ℕ) → (1 ≤ length (encode_rune r)) × (length (encode_rune r) ≤ 4)
unfolding encode_rune
encode_rune-length r = (ground arith, ground arith)

pub length-encode_runes : (rs : List ℕ) → length rs ≤ length (encode_runes rs)
unfolding encode_runes
length-encode_runes [] = omega arith
length-encode_runes (r ∷ rs) =
    omega (
      arith,
      length-encode_runes rs,
      shut_length r,
      length-append (encode_rune r) (encode_runes rs),
    )
  where
    shut_length : (r : ℕ) → 1 ≤ length (encode_rune r)
    shut_length r = (encode_rune-length r).0
