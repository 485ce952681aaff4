-- ===== src/Tests/Tunnel.antt =====
-- The tunnel on the stream of Tests.Guac, cut inside an instruction, with a control in between.
use waas.Prelude.{
  ◌≡◌, ◌∙◌, true, false, List, [], ◌∷◌, ◌++◌, codes, All, take, drop, take-append-drop, append-nil,
}
use waas.Guac.Instruction.{Instruction, encode}
use waas.Guac.Framing.Stream.{encode_all}
use waas.Guac.Clipboard.Control.{control_message}
use waas.Guac.Clipboard.FastPath.{IsQuiet}
use waas.Tunnel.{new_tunnel, Event, chunk, message, run}
use waas.Tunnel.Guarded.{IsQuietSent, from_server}
use waas.Tunnel.Quiet.{run-quiet}
use waas.Tunnel.Paste.{run-sealed}
use waas.Tests.Guac.{stream, stream-IsInstruction, stream-IsShort, clip}

-- The overlay asks for copying, which the token does not grant.
abbrev pub session : List Event
session =
    chunk (take 17 (encode_all stream))
    ∷ message (encode (control_message true (codes "1")))
    ∷ message (encode clip)
    ∷ chunk (drop 17 (encode_all stream))
    ∷ []

pub session_stream : from_server session ++ [] ≡ encode_all stream
session_stream =
    append-nil (take 17 (encode_all stream) ++ (drop 17 (encode_all stream) ++ []))
    ∙ rw (append-nil (drop 17 (encode_all stream))) (take-append-drop 17 (encode_all stream))

run-quiet_example : All IsQuietSent (run session (new_tunnel false true)).to_browser
run-quiet_example =
    run-quiet true session [] stream stream-IsInstruction stream-IsShort session_stream

run-sealed_example :
    (js : List Instruction) × ((run session (new_tunnel true false)).to_guacd ≡ encode_all js)
    × IsQuiet js
run-sealed_example = run-sealed true session
