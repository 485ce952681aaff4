-- ===== src/Guac/Clipboard/Control.antt =====
-- The overlay's controls, from the bytes of the message to the bytes of the reply.
use waas.Prelude.{
  ◌≡◌, refl, ◌∙◌, ap, sym, Bool, true, false, ◌&&◌, [], ◌∷◌, some, Bytes, codes, arith, equal,
  if◌then◌else◌, append-nil,
}
use waas.Guac.Result.{ok}
use waas.Guac.Instruction.{Instruction, encode, read_instruction, IsInstruction, IsElement}
use waas.Guac.Instruction.Ascii.{IsElement-of_ascii}
use waas.Guac.Instruction.RoundTrip.{read_instruction-encode}
use waas.Guac.Clipboard.{ClipboardFilter, control_clipboard, state_reply, control, handle_control}

-- the control that sets a direction (copy if true)
abbrev pub control_message : Bool → Bytes → Instruction
control_message copies value = record {
  opcode = [];
  args = control_clipboard ∷ (if copies then codes "copy" else codes "paste") ∷ value ∷ [];
}

control_message_lem :
    (copies : Bool) (value : Bytes) (f : ClipboardFilter)
    → control (control_message copies value) (control_message copies value).args f ≡ (
        let on = equal value (codes "1") in
        if copies
        then (
          record f { want_copy = on && f.grant_copy },
          some (state_reply (codes "copy") (on && f.grant_copy)),
        )
        else (
          record f { want_paste = on && f.grant_paste },
          some (state_reply (codes "paste") (on && f.grant_paste)),
        ))
unfolding control equal
control_message_lem true value f = refl
control_message_lem false value f = refl

control_message-IsInstruction :
    (copies : Bool) (value : Bytes) → IsElement value → IsInstruction (control_message copies value)
control_message-IsInstruction true value h = record {
  opcode_fits = IsElement-of_ascii [] tt (omega arith);
  args_fit = (
    IsElement-of_ascii control_clipboard (omega arith) (omega arith),
    (IsElement-of_ascii (codes "copy") (omega arith) (omega arith), (h, tt)),
  );
}
control_message-IsInstruction false value h = record {
  opcode_fits = IsElement-of_ascii [] tt (omega arith);
  args_fit = (
    IsElement-of_ascii control_clipboard (omega arith) (omega arith),
    (IsElement-of_ascii (codes "paste") (omega arith) (omega arith), (h, tt)),
  );
}

-- A control message, as the overlay encodes it, sets its direction to what it asks for as far as the
-- grant allows, touches nothing else, and is answered with the state that is in force.
pub handle_control-control_message :
    (copies : Bool) (value : Bytes) (f : ClipboardFilter)
    → IsElement value
    → handle_control (encode (control_message copies value)) f ≡ (
        let on = equal value (codes "1") in
        if copies
        then (
          record f { want_copy = on && f.grant_copy },
          some (state_reply (codes "copy") (on && f.grant_copy)),
        )
        else (
          record f { want_paste = on && f.grant_paste },
          some (state_reply (codes "paste") (on && f.grant_paste)),
        ))
unfolding handle_control
handle_control-control_message copies value f h = rw (read) (control_message_lem copies value f)
  where
    read :
        read_instruction (encode (control_message copies value))
        ≡ ok (control_message copies value, [])
    read =
        ap read_instruction (sym (append-nil (encode (control_message copies value))))
        ∙ read_instruction-encode (control_message copies value) []
            (control_message-IsInstruction copies value h)
