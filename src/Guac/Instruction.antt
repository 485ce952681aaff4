-- ===== src/Guac/Instruction.antt =====
-- wwt/internal/guac/instruction.go: one instruction, its encoding and its parser.
-- A `bufio.Reader` is the bytes not yet read; what a failed read leaves there no caller uses.
pub mod RoundTrip
pub mod Total
pub mod Ascii
use waas.Prelude.{
  ℕ, zero, suc, ◌+◌, ◌≤◌, ◌≡◌, refl, Bool, List, [], ◌∷◌, ◌++◌, Option, none, some, Bytes, All,
  length, drop, leb, ◌==◌, if◌then◌else◌,
}
use waas.Guac.Utf8.{IsRune, encode_rune, decode_rune, encode_runes}
use waas.Guac.Decimal.{ℤ, pos, negsuc, decimal, atoi}
use waas.Guac.Result.{
  Error, no_length, bad_length, illegal_length, no_value, no_separator, bad_separator, out_of_fuel,
  Result, ok, err, ◌>>=◌, or_err,
}

-- framing.go: `1 << 20`
abbrev pub max_pending_bytes : ℕ
max_pending_bytes = 1048576

pub record Instruction : Type 0 where
  pub opcode : Bytes
  pub args : List Bytes

-- `[]rune(value)`: every rune takes a byte at least, so the length is fuel enough.
unfoldable pub decode_runes : ℕ → Bytes → List ℕ
decode_runes zero b = []
decode_runes (suc f) [] = []
decode_runes (suc f) (c ∷ b) =
    let (r, size) = decode_rune (c ∷ b) in r ∷ decode_runes f (drop size (c ∷ b))

unfoldable pub runes : Bytes → List ℕ
unfolding decode_runes
runes b = decode_runes (length b) b

-- `writeElement`
unfoldable pub write_element : Bytes → Bytes
unfolding runes decimal
write_element value = decimal (length (runes value)) ++ b'.' ∷ value

-- the loop of `Encode` over the arguments, and the end of the instruction
unfoldable pub write_args : List Bytes → Bytes
unfolding write_element
write_args [] = b';' ∷ []
write_args (arg ∷ rest) = b',' ∷ (write_element arg ++ write_args rest)

unfoldable pub encode : Instruction → Bytes
unfolding write_args write_element
encode i = write_element i.opcode ++ write_args i.args

-- `r.ReadString(d)` without the delimiter; `none` is the end of the stream
unfoldable pub read_string : ℕ → Bytes → Option (Bytes × Bytes)
read_string d [] = none
read_string d (c ∷ b) =
    let rest = read_string d b in
    if c == d
    then some ([], b)
    else elim rest [ none ↦ none | some (text, left) ↦ some (c ∷ text, left) ]

-- `r.ReadRune()`, `n` times
unfoldable pub read_runes : ℕ → Bytes → Option (List ℕ × Bytes)
read_runes zero b = some ([], b)
read_runes (suc n) [] = none
read_runes (suc n) (c ∷ b) =
    let (r, size) = decode_rune (c ∷ b) in
    elim (read_runes n (drop size (c ∷ b))) [ none ↦ none | some (rs, left) ↦ some (r ∷ rs, left) ]

-- `r.ReadByte()`
unfoldable pub read_byte : Bytes → Option (ℕ × Bytes)
read_byte [] = none
read_byte (c ∷ b) = some (c, b)

-- the range check on a parsed length
unfoldable pub legal_length : ℤ → Result ℕ
legal_length (pos n) = if leb n max_pending_bytes then ok n else err illegal_length
legal_length (negsuc n) = err illegal_length

-- one round of the loop of `ReadInstruction`: the element, its separator and the rest
unfoldable pub read_element : Bytes → Result (Bytes × ℕ × Bytes)
unfolding read_string read_runes read_byte legal_length
read_element b = do
  (text, b1) ← or_err (read_string b'.' b) no_length
  n ← or_err (atoi text) bad_length
  len ← legal_length n
  (rs, b2) ← or_err (read_runes len b1) no_value
  (sep, b3) ← or_err (read_byte b2) no_separator
  ok (encode_runes rs, sep, b3)

-- `Instruction{Opcode: elements[0], Args: elements[1:]}`, of a list that is never empty
abbrev pub instruction_of : List Bytes → Instruction
instruction_of [] = record { opcode = []; args = [] }
instruction_of (x ∷ xs) = record { opcode = x; args = xs }

-- the switch on the separator; `next` is the rest of the loop
abbrev pub after_element :
    (List Bytes → Bytes → Result (Instruction × Bytes))
    → List Bytes
    → Bytes × ℕ × Bytes
    → Result (Instruction × Bytes)
after_element next elements (value, sep, rest) =
    if sep == b','
    then next (elements ++ value ∷ []) rest
    else if sep == b';'
    then ok (instruction_of (elements ++ value ∷ []), rest)
    else err bad_separator

unfoldable pub read_elements : ℕ → List Bytes → Bytes → Result (Instruction × Bytes)
read_elements zero elements b = err out_of_fuel
read_elements (suc f) elements b = read_element b >>= after_element (read_elements f) elements

-- `ReadInstruction`: every round takes a byte at least, so the fuel is never used up.
unfoldable pub read_instruction : Bytes → Result (Instruction × Bytes)
unfolding read_elements read_element
read_instruction b = read_elements (suc (length b)) [] b

-- A value that the wire can carry: valid UTF-8, not longer than the parser admits.
pub record IsElement (value : Bytes) : Type 0 where
  pub points : List ℕ
  pub valid : All IsRune points
  pub spelled : value ≡ encode_runes points
  pub short : length points ≤ max_pending_bytes

pub record IsInstruction (i : Instruction) : Type 0 where
  pub opcode_fits : IsElement i.opcode
  pub args_fit : All IsElement i.args

abbrev ping : Instruction
ping = record { opcode = []; args = (b'h' ∷ b'i' ∷ []) ∷ [] }

ping_bytes : encode ping ≡ b'0' ∷ b'.' ∷ b',' ∷ b'2' ∷ b'.' ∷ b'h' ∷ b'i' ∷ b';' ∷ []
unfolding encode decode_rune
ping_bytes = refl

ping_read : read_instruction (encode ping) ≡ ok (ping, [])
unfolding encode read_instruction decode_rune decimal atoi encode_runes encode_rune
ping_read = refl
