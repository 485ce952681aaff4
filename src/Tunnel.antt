-- ===== src/Tunnel.antt =====
-- wwt/internal/proxy/proxy.go: the two pipes between the browser's WebSocket and guacd, over the
-- framer and the clipboard filter. Each pipe is a goroutine; what it does with one read is one step,
-- and the steps of the two come in any order. A pipe that has returned takes no further step, and a
-- failed write shows as the end of its pipe.

pub mod Guarded
pub mod Quiet
pub mod Paste
use waas.Prelude.{
  ◌≡◌, Bool, true, false, List, [], ◌∷◌, ◌++◌, Option, none, some, Bytes, if◌then◌else◌,
}
use waas.Guac.Result.{Error, Result, ok, err}
use waas.Guac.Framing.{Framer, new_framer, push, is_internal_ping, is_internal_message}
use waas.Guac.Clipboard.{
  ClipboardFilter, new_clipboard_filter, filter_to_browser, filter_to_guacd, handle_control,
}

-- A message to the browser: a frame of the guacd stream, or an answer to a message of its own.
pub data Sent : Type 0 where
  frame : Bytes → Sent
  answer : Bytes → Sent

pub record Tunnel : Type 0 where
  pub framer : Framer
  pub clipboard : ClipboardFilter
  pub to_browser : List Sent
  pub to_guacd : Bytes
  pub server_open : Bool
  pub client_open : Bool

abbrev pub new_tunnel : Bool → Bool → Tunnel
new_tunnel copy paste = record {
  framer = new_framer;
  clipboard = new_clipboard_filter copy paste;
  to_browser = [];
  to_guacd = [];
  server_open = true;
  client_open = true;
}

-- `if len(frame) > 0 { writeWS(frame) }`
abbrev pub write_frame : Bytes → Tunnel → Tunnel
write_frame [] t = t
write_frame (c ∷ b) t = record t { to_browser = t.to_browser ++ frame (c ∷ b) ∷ [] }

abbrev pub on_filtered : Result (ClipboardFilter × Bytes) → Tunnel → Tunnel
on_filtered (err e) t = record t { server_open = false }
on_filtered (ok (f, b)) t = write_frame b (record t { clipboard = f })

abbrev pub on_pushed : Result (Option Bytes) → Tunnel → Tunnel
on_pushed (err e) t = record t { server_open = false }
on_pushed (ok none) t = t
on_pushed (ok (some b)) t = on_filtered (filter_to_browser b t.clipboard) t

-- One read of the guacd → browser pipe; an empty read does nothing.
unfoldable pub from_guacd : Bytes → Tunnel → Tunnel
from_guacd [] t = t
from_guacd (c ∷ chunk) t =
    let (framer, pushed) = push t.framer (c ∷ chunk) in
    on_pushed pushed (record t { framer = framer })

abbrev pub answer_with : Option Bytes → Tunnel → Tunnel
answer_with none t = t
answer_with (some b) t = record t { to_browser = t.to_browser ++ answer b ∷ [] }

-- `if reply != nil { writeWS(reply) }`: a refusal is never empty
abbrev pub answer_refusal : Bytes → Tunnel → Tunnel
answer_refusal [] t = t
answer_refusal (c ∷ b) t = answer_with (some (c ∷ b)) t

abbrev pub on_forward : Result (ClipboardFilter × Bytes × Bytes) → Tunnel → Tunnel
on_forward (err e) t = record t { client_open = false }
on_forward (ok (f, forward, reply)) t =
    let u = answer_refusal reply (record t { clipboard = f }) in
    record u { to_guacd = u.to_guacd ++ forward }

-- One message of the browser → guacd pipe.
unfoldable pub from_browser : Bytes → Tunnel → Tunnel
from_browser message t =
    if is_internal_message message
    then (if is_internal_ping message
        then answer_with (some message) t
        else (let (f, reply) = handle_control message t.clipboard in
            answer_with reply (record t { clipboard = f })))
    else on_forward (filter_to_guacd message t.clipboard) t

-- What the network and the user do: a read of either pipe, or the end of one.
pub data Event : Type 0 where
  chunk message : Bytes → Event
  server_end client_end : Event

unfoldable pub step : Event → Tunnel → Tunnel
unfolding from_guacd from_browser
step (chunk b) t = if t.server_open then from_guacd b t else t
step (message b) t = if t.client_open then from_browser b t else t
step server_end t = record t { server_open = false }
step client_end t = record t { client_open = false }

unfoldable pub run : List Event → Tunnel → Tunnel
unfolding step
run [] t = t
run (e ∷ es) t = run es (step e t)
