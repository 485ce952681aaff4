-- ===== src/Guac/Clipboard.antt =====
-- wwt/internal/guac/clipboard.go: the filter that holds the token's clipboard grant on both streams.
-- The mutex makes each method atomic: a method is a function from the filter to the filter. The
-- maps of blocked stream indices are lists without repetition, and the counter of the metric
-- `ClipboardBlocked` is a pair of fields.
pub mod Streams
pub mod Total
pub mod FastPath
pub mod Blocking
pub mod Grant
pub mod Control
use waas.Prelude.{
  ℕ, zero, suc, ◌+◌, ◌≡◌, refl, Bool, true, false, not, ◌&&◌, ◌||◌, List, [], ◌∷◌, ◌++◌, Option,
  none, some, Bytes, codes, length, keep, if◌then◌else◌, equal, member, contains,
}
use waas.Guac.Result.{Result, ok, err, out_of_fuel, ◌>>=◌}
use waas.Guac.Instruction.{Instruction, encode, read_instruction}

pub record ClipboardFilter : Type 0 where
  pub grant_copy : Bool
  pub grant_paste : Bool
  pub want_copy : Bool
  pub want_paste : Bool
  pub blocked_server : List Bytes
  pub blocked_client : List Bytes
  pub copies_blocked : ℕ
  pub pastes_blocked : ℕ

unfoldable pub new_clipboard_filter : Bool → Bool → ClipboardFilter
new_clipboard_filter copy paste = record {
  grant_copy = copy;
  grant_paste = paste;
  want_copy = copy;
  want_paste = paste;
  blocked_server = [];
  blocked_client = [];
  copies_blocked = 0;
  pastes_blocked = 0;
}

-- `SetCopy` and `SetPaste`: the toggle, clamped to the grant, and the effective state.
unfoldable pub set_copy : Bool → ClipboardFilter → ClipboardFilter × Bool
set_copy enabled f = let want = enabled && f.grant_copy in (record f { want_copy = want }, want)

unfoldable pub set_paste : Bool → ClipboardFilter → ClipboardFilter × Bool
set_paste enabled f = let want = enabled && f.grant_paste in (record f { want_paste = want }, want)

abbrev pub copy_blocked : ClipboardFilter → Bool
copy_blocked f = not f.want_copy

abbrev pub paste_blocked : ClipboardFilter → Bool
paste_blocked f = not f.want_paste

pub data Side : Type 0 where
  server client : Side

-- `blocked[index] = true` and `delete(blocked, index)`
unfoldable pub block : Bytes → List Bytes → List Bytes
block index blocked = if member blocked index then blocked else index ∷ blocked

unfoldable pub unblock : Bytes → List Bytes → List Bytes
unblock index blocked = keep (λ b. not (equal b index)) blocked

-- What the walk over a frame carries.
pub record Walk : Type 0 where
  pub blocked : List Bytes
  pub out : Bytes
  pub reply : Bytes
  pub opened : ℕ

abbrev pub ack : Bytes → Instruction
ack index = record {
  opcode = codes "ack";
  args = index ∷ codes "clipboard disabled by policy" ∷ codes "771" ∷ [];
}

abbrev pub refusal : Side → Bytes → Bytes
refusal server index = []
refusal client index = encode (ack index)

-- the default of the switch: the instruction is kept
abbrev pub pass : Instruction → Walk → Walk
pass i w = record w { out = w.out ++ encode i }

unfoldable pub on_clipboard : Side → Bool → Instruction → List Bytes → Walk → Walk
on_clipboard side true i (index ∷ args) w = record w {
  blocked = block index w.blocked;
  opened = w.opened + 1;
  reply = w.reply ++ refusal side index;
}
on_clipboard side _ i _ w = pass i w

unfoldable pub on_blob : Instruction → List Bytes → Walk → Walk
on_blob i [] w = pass i w
on_blob i (index ∷ args) w = if member w.blocked index then w else pass i w

unfoldable pub on_end : Instruction → List Bytes → Walk → Walk
on_end i [] w = pass i w
on_end i (index ∷ args) w =
    if member w.blocked index then record w { blocked = unblock index w.blocked } else pass i w

-- the switch on the opcode
unfoldable pub walk_instruction : Side → Bool → Instruction → Walk → Walk
unfolding on_clipboard on_blob on_end
walk_instruction side direction_blocked i w =
    if equal i.opcode (codes "clipboard")
    then on_clipboard side direction_blocked i i.args w
    else if equal i.opcode (codes "blob")
    then on_blob i i.args w
    else if equal i.opcode (codes "end")
    then on_end i i.args w
    else pass i w

-- the loop over the instructions of a frame, which takes a byte at least in every round
unfoldable pub walk : ℕ → Side → Bool → Walk → Bytes → Result Walk
walk zero side direction_blocked w b = err out_of_fuel
walk (suc f) side direction_blocked w [] = ok w
walk (suc f) side direction_blocked w (c ∷ b) = read_instruction (c ∷ b) >>= λ read.
    walk f side direction_blocked (walk_instruction side direction_blocked read.0 w) read.1

abbrev pub blocked_of : Side → ClipboardFilter → List Bytes
blocked_of server f = f.blocked_server
blocked_of client f = f.blocked_client

abbrev pub direction_blocked_of : Side → ClipboardFilter → Bool
direction_blocked_of server f = copy_blocked f
direction_blocked_of client f = paste_blocked f

abbrev pub store : Side → Walk → ClipboardFilter → ClipboardFilter
store server w f = record f {
  blocked_server = w.blocked;
  copies_blocked = f.copies_blocked + w.opened;
}
store client w f = record f {
  blocked_client = w.blocked;
  pastes_blocked = f.pastes_blocked + w.opened;
}

abbrev pub start : Side → ClipboardFilter → Walk
start side f = record { blocked = blocked_of side f; out = []; reply = []; opened = 0 }

-- `rewriteWithReplies`: the filter behind it, the kept bytes and the replies. After an error the
-- caller ends the session, so the state that it leaves is not kept.
unfoldable pub rewrite_with_replies :
    Side → Bytes → ClipboardFilter → Result (ClipboardFilter × Bytes × Bytes)
unfolding walk
rewrite_with_replies side frame f =
    walk (suc (length frame)) side (direction_blocked_of side f) (start side f) frame >>= λ w.
    ok (store side w f, w.out, w.reply)

-- `rewrite`: the replies dropped
unfoldable pub rewrite : Side → Bytes → ClipboardFilter → Result (ClipboardFilter × Bytes)
rewrite side frame f = rewrite_with_replies side frame f >>= λ r. ok (r.0, r.1)

abbrev pub is_empty : List Bytes → Bool
is_empty [] = true
is_empty (x ∷ xs) = false

abbrev pub clipboard_opcode : Bytes
clipboard_opcode = codes "9.clipboard,"

-- `FilterToBrowser`
unfoldable pub filter_to_browser : Bytes → ClipboardFilter → Result (ClipboardFilter × Bytes)
filter_to_browser frame f =
    if is_empty f.blocked_server && (not (copy_blocked f) || not (contains frame clipboard_opcode))
    then ok (f, frame)
    else rewrite server frame f

-- `FilterToGuacd`: the filter behind it, the bytes to forward and the reply to the browser
unfoldable pub filter_to_guacd : Bytes → ClipboardFilter → Result (ClipboardFilter × Bytes × Bytes)
filter_to_guacd message f =
    if not (paste_blocked f) && is_empty f.blocked_client
    then ok (f, message, [])
    else rewrite_with_replies client message f

abbrev pub control_clipboard : Bytes
control_clipboard = codes "waas-clipboard"

abbrev pub state_reply : Bytes → Bool → Bytes
state_reply direction effective = encode (record {
  opcode = [];
  args = control_clipboard ∷ direction ∷ (if effective then codes "1" else codes "0") ∷ [];
})

unfoldable pub toggle : Bytes → Bool → ClipboardFilter → ClipboardFilter × Option Bytes
unfolding set_copy set_paste
toggle direction enable f =
    if equal direction (codes "copy")
    then (let (g, effective) = set_copy enable f in (g, some (state_reply direction effective)))
    else if equal direction (codes "paste")
    then (let (g, effective) = set_paste enable f in (g, some (state_reply direction effective)))
    else (f, none)

unfoldable pub control : Instruction → List Bytes → ClipboardFilter → ClipboardFilter × Option Bytes
unfolding toggle
control i (name ∷ direction ∷ value ∷ more) f =
    if equal i.opcode [] && equal name control_clipboard
    then toggle direction (equal value (codes "1")) f
    else (f, none)
control i _ f = (f, none)

abbrev on_read : Result (Instruction × Bytes) → ClipboardFilter → ClipboardFilter × Option Bytes
on_read (err e) f = (f, none)
on_read (ok (i, rest)) f = control i i.args f

-- `HandleControl`
unfoldable pub handle_control : Bytes → ClipboardFilter → ClipboardFilter × Option Bytes
unfolding control
handle_control message f = on_read (read_instruction message) f
