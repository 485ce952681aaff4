-- ===== src/Guac/Handshake.antt =====
-- wwt/internal/guac/handshake.go: the client's side of the guacd handshake.
-- A connection is the bytes that guacd sends and those that are written to it; a connection that has
-- refused a write refuses all later ones. A read that blocks for ever is a read of what never comes.
pub mod Order
use waas.Prelude.{
  ℕ, zero, suc, ◌+◌, ◌-◌, ◌≡◌, Bool, true, false, ◌&&◌, ◌||◌, List, [], ◌∷◌, ◌++◌, Option, none,
  some, Bytes, codes, if◌then◌else◌, ltb, equal, has_prefix, map,
}
use waas.Guac.Decimal.{decimal, ℤ, pos, negsuc}
use waas.Guac.Result.{Error, not_args, not_ready, refused, write_failed, Result, ok, err}
use waas.Guac.Instruction.{Instruction, encode, read_instruction}

pub record ConnectionParams : Type 0 where
  pub protocol : Bytes
  pub hostname : Bytes
  pub port : ℤ
  pub username : Bytes
  pub password : Bytes
  pub extra : Bytes → Option Bytes
  pub width : ℤ
  pub height : ℤ
  pub dpi : ℤ
  pub client_layout : Bytes

pub record Conn : Type 0 where
  pub input : Bytes
  pub output : Bytes
  pub writes_left : ℕ

-- `strconv.Itoa`
abbrev pub itoa : ℤ → Bytes
itoa (pos n) = decimal n
itoa (negsuc n) = b'-' ∷ decimal (suc n)

-- `if v <= 0 { v = … }`
abbrev pub or_default : ℤ → ℕ → ℕ
or_default (pos zero) n = n
or_default (pos (suc v)) n = suc v
or_default (negsuc v) n = n

abbrev pub Io : Type 0 → Type 0
Io A = Conn → Conn × Result A

abbrev pub and_then : {A B : Type 0} → (A → Io B) → Conn × Result A → Conn × Result B
and_then next (c, err e) = (c, err e)
and_then next (c, ok a) = next a c

infixl 5 ◌>>=◌ ◌>>◌
abbrev pub ◌>>=◌ : {A B : Type 0} → Io A → (A → Io B) → Io B
(read >>= next) c = and_then next (read c)

abbrev pub ◌>>◌ : {A B : Type 0} → Io A → Io B → Io B
(first >> next) c = and_then (λ _. next) (first c)

-- `send`
unfoldable pub send : Instruction → Io (Unit {0})
send i c = elim c.writes_left [
  | zero ↦ (c, err write_failed)
  | suc n ↦ (record c { output = c.output ++ encode i; writes_left = n }, ok tt)
]

abbrev received : Conn → Result (Instruction × Bytes) → Conn × Result Instruction
received c (err e) = (c, err e)
received c (ok (i, rest)) = (record c { input = rest }, ok i)

-- `ReadInstruction(r)`
unfoldable pub receive : Io Instruction
receive c = received c (read_instruction c.input)

abbrev pub has_version : Bytes → Bool
has_version name = has_prefix name (codes "VERSION_")

-- what `paramValue` returns for a name that Extra does not set
unfoldable pub default_value : Bytes → ConnectionParams → Bytes
default_value name params =
    if equal name (codes "username")
    then params.username
    else if equal name (codes "password")
    then params.password
    else if equal name (codes "ignore-cert") && equal params.protocol (codes "rdp")
    then codes "true"
    else if equal name (codes "server-layout") && equal params.protocol (codes "rdp")
    then params.client_layout
    else if equal name (codes "audio-servername") && equal params.protocol (codes "vnc")
    then params.hostname
    else []

abbrev or_default_value : Option Bytes → Bytes → Bytes
or_default_value none value = value
or_default_value (some v) value = v

-- `paramValue`
unfoldable pub param_value : ConnectionParams → Bytes → Bytes
param_value params name =
    if has_version name
    then name
    else if equal name (codes "hostname")
    then params.hostname
    else if equal name (codes "port")
    then itoa params.port
    else or_default_value (params.extra name) (default_value name params)

abbrev pub instruction : Bytes → List Bytes → Instruction
instruction opcode args = record { opcode = opcode; args = args }

abbrev pub select : ConnectionParams → Instruction
select params = instruction (codes "select") (params.protocol ∷ [])

abbrev pub size : ConnectionParams → Instruction
size params = instruction (codes "size") (
    decimal (or_default params.width 1920)
    ∷ decimal (or_default params.height 1080)
    ∷ decimal (or_default params.dpi 96)
    ∷ [])

abbrev pub audio : Instruction
audio = instruction (codes "audio") (codes "audio/L16" ∷ [])

abbrev pub video : Instruction
video = instruction (codes "video") []

abbrev pub image : Instruction
image =
    instruction (codes "image") (codes "image/png" ∷ codes "image/jpeg" ∷ codes "image/webp" ∷ [])

abbrev pub connect : ConnectionParams → List Bytes → Instruction
connect params names = instruction (codes "connect") (map (param_value params) names)

abbrev pub check_args : Instruction → Io (Unit {0})
check_args i c = (c, if equal i.opcode (codes "args") then ok tt else err not_args)

abbrev pub id_of : List Bytes → Result Bytes
id_of [] = err not_ready
id_of (id ∷ args) = ok id

abbrev pub check_ready : Instruction → Io Bytes
check_ready i c = (
  c,
  if equal i.opcode (codes "error")
      then err refused
      else if equal i.opcode (codes "ready")
      then id_of i.args
      else err not_ready,
)

-- the handshake from the announced parameters on
unfoldable pub after_args : ConnectionParams → Instruction → Io Bytes
after_args params args = do
  check_args args
  send (size params)
  send audio
  send video
  send image
  send (connect params args.args)
  ready ← receive
  check_ready ready

-- `Handshake`; the reader it returns is the connection's input
unfoldable pub handshake : ConnectionParams → Io Bytes
handshake params = do send (select params); args ← receive; after_args params args
