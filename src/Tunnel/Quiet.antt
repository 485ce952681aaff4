-- ===== src/Tunnel/Quiet.antt =====
-- What a tunnel whose token does not grant copying shows the browser of the desktop's clipboard.
use waas.Prelude.{
  ◌≡◌, refl, Bool, true, false, List, [], ◌∷◌, ◌++◌, Bytes, All, arith, length, if◌then◌else◌,
  append_assoc,
}
use mathlib.Core.Path.{subst}
use waas.Guac.Instruction.{Instruction, IsInstruction}
use waas.Guac.Framing.{push}
use waas.Guac.Framing.Stream.{encode_all}
use waas.Guac.Framing.Frames.{pending, group, left, IsShort, push_stream, All-group, All-left}
use waas.Guac.Clipboard.Grant.{new_clipboard_filter-IsWithin}
use waas.Tunnel.{
  Tunnel, new_tunnel, from_guacd, Event, chunk, message, server_end, client_end, step, run,
}
use waas.Tunnel.Guarded.{
  IsQuietSent, from_server, IsGuarded, on_pushed-IsGuarded, client_end-IsGuarded, if-IsGuarded,
  from_browser-IsGuarded,
}

closed-IsGuarded :
    {paste : Bool} {later later' : Bytes} (t : Tunnel)
    → t.server_open ≡ false
    → IsGuarded paste later t
    → IsGuarded paste later' t
closed-IsGuarded t closed h = record {
  rest = h.rest;
  fit = h.fit;
  short = h.short;
  stream = λ o. absurd (ground arith);
  rights = h.rights;
  quiet = h.quiet;
}

from_guacd-IsGuarded :
    {paste : Bool} (b later : Bytes) (t : Tunnel)
    → t.server_open ≡ true
    → IsGuarded paste (b ++ later) t
    → IsGuarded paste later (from_guacd b t)
unfolding from_guacd
from_guacd-IsGuarded [] later t opened h = h
from_guacd-IsGuarded (c ∷ b) later t opened h =
    let k = length (pending t.framer ++ c ∷ b) in
    let (pushed, held, _) =
      push_stream t.framer h.rest (c ∷ b) later h.fit h.short (h.stream opened) in
    rw pushed (
      on_pushed-IsGuarded (encode_all (group k h.rest)) (group k h.rest)
        (record t { framer = (push t.framer (c ∷ b)).0 }) refl
        (All-group IsInstruction k h.rest h.fit)
        (record {
          rest = left k h.rest;
          fit = All-left IsInstruction k h.rest h.fit;
          short = All-left IsShort k h.rest h.short;
          stream = λ _. held;
          rights = h.rights;
          quiet = h.quiet;
        }))

step-IsGuarded :
    {paste : Bool} (e : Event) (es : List Event) (tail : Bytes) (t : Tunnel)
    → IsGuarded paste (from_server (e ∷ es) ++ tail) t
    → IsGuarded paste (from_server es ++ tail) (step e t)
unfolding step
step-IsGuarded {paste} (chunk b) es tail t h =
    either_way t.server_open
      (λ opened.
        from_guacd-IsGuarded b (from_server es ++ tail) t opened
          (subst (λ later. IsGuarded paste later t) (append_assoc b (from_server es) tail) h))
      (λ closed. closed-IsGuarded t closed h)
  where
    either_way :
        (o : Bool)
        → (o ≡ true → IsGuarded paste (from_server es ++ tail) (from_guacd b t))
        → (o ≡ false → IsGuarded paste (from_server es ++ tail) t)
        → IsGuarded paste (from_server es ++ tail) (if o then from_guacd b t else t)
    either_way true p q = p refl
    either_way false p q = q refl
step-IsGuarded (message b) es tail t h = if-IsGuarded _ _ _ (from_browser-IsGuarded b t h) h
step-IsGuarded server_end es tail t h = record {
  rest = h.rest;
  fit = h.fit;
  short = h.short;
  stream = λ o. absurd (ground arith);
  rights = h.rights;
  quiet = h.quiet;
}
step-IsGuarded client_end es tail t h = client_end-IsGuarded t h

run-IsGuarded :
    {paste : Bool} (es : List Event) (tail : Bytes) (t : Tunnel)
    → IsGuarded paste (from_server es ++ tail) t
    → IsGuarded paste tail (run es t)
unfolding run
run-IsGuarded [] tail t h = h
run-IsGuarded (e ∷ es) tail t h = run-IsGuarded es tail (step e t) (step-IsGuarded e es tail t h)

-- If the token does not grant copying and guacd sends a stream of instructions (each at most
-- `MaxPendingBytes` long; the events may end inside one), then whatever the order of events, the
-- cuts of the stream and the browser's messages, every frame that reaches the browser is a row of
-- whole instructions of which none opens a clipboard stream.
pub run-quiet :
    (paste : Bool) (es : List Event) (tail : Bytes) (is : List Instruction)
    → All IsInstruction is
    → All IsShort is
    → from_server es ++ tail ≡ encode_all is
    → All IsQuietSent (run es (new_tunnel false paste)).to_browser
run-quiet paste es tail is fit short stream =
    (run-IsGuarded es tail (new_tunnel false paste) (record {
      rest = is;
      fit = fit;
      short = short;
      stream = λ _. stream;
      rights = new_clipboard_filter-IsWithin false paste;
      quiet = tt;
    })).quiet
