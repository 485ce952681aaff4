-- ===== src/Guac/Instruction/Ascii.antt =====
-- Short ASCII texts as elements of the wire.
use waas.Prelude.{
  ℕ, ◌<◌, ◌≤◌, ◌≡◌, refl, ap, sym, ◌∙◌, [], ◌∷◌, ◌++◌, Bytes, All, arith, length, inl,
}
use waas.Guac.Utf8.{IsRune, encode_rune, encode_runes}
use waas.Guac.Instruction.{IsElement, max_pending_bytes}

encode_rune_ascii : (c : ℕ) → c < 128 → encode_rune c ≡ c ∷ []
unfolding encode_rune
encode_rune_ascii c h = ground arith

encode_runes_ascii : (s : Bytes) → All (λ c. c < 128) s → s ≡ encode_runes s
unfolding encode_runes
encode_runes_ascii [] h = refl
encode_runes_ascii (c ∷ s) h =
    ap (◌∷◌ c) (encode_runes_ascii s h.1)
    ∙ ap (λ b. b ++ encode_runes s) (sym (encode_rune_ascii c h.0))

runes_of_ascii : (s : Bytes) → All (λ c. c < 128) s → All IsRune s
runes_of_ascii [] h = tt
runes_of_ascii (c ∷ s) h = ((omega (arith, h.0), inl (omega (arith, h.0))), runes_of_ascii s h.1)

pub IsElement-of_ascii :
    (s : Bytes) → All (λ c. c < 128) s → length s ≤ max_pending_bytes → IsElement s
IsElement-of_ascii s h short = record {
  points = s;
  valid = runes_of_ascii s h;
  spelled = encode_runes_ascii s h;
  short = short;
}
