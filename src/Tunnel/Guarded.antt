-- ===== src/Tunnel/Guarded.antt =====
-- The invariant of a tunnel whose token does not grant copying, and the steps that keep it.
use waas.Prelude.{
  ◌≡◌, refl, ◌∙◌, ap, inl, inr, Bool, true, false, not, List, [], ◌∷◌, ◌++◌, Option, none, some,
  Bytes, All, All-append, arith, Bool-cases, if◌then◌else◌,
}
use waas.Guac.Result.{Result, ok, err}
use waas.Guac.Instruction.{Instruction, IsInstruction}
use waas.Guac.Framing.Stream.{encode_all}
use waas.Guac.Framing.Frames.{pending, frame_of, IsShort}
use waas.Guac.Clipboard.{
  ClipboardFilter, server, store, start, copy_blocked, filter_to_browser, filter_to_guacd,
  handle_control,
}
use waas.Guac.Clipboard.Streams.{walked, kept}
use waas.Guac.Clipboard.FastPath.{IsQuiet, filter_to_browser-rewrite, rewrite-encode_all}
use waas.Guac.Clipboard.Blocking.{kept_closed-opens}
use waas.Guac.Clipboard.Grant.{
  IsWithin, Leaves, filter_to_browser-IsWithin, filter_to_guacd-IsWithin, handle_control-IsWithin,
}
use waas.Tunnel.{
  Sent, frame, answer, Tunnel, write_frame, on_pushed, answer_with, answer_refusal, on_forward,
  from_browser, Event, chunk, message, server_end, client_end,
}

-- A frame to the browser is a row of whole instructions, none of which opens a clipboard stream.
abbrev pub IsQuietSent : Sent → Type 0
IsQuietSent (frame b) = (js : List Instruction) × (b ≡ encode_all js) × IsQuiet js
IsQuietSent (answer b) = Unit

-- The bytes that guacd sends in a row of events.
abbrev pub from_server : List Event → Bytes
from_server [] = []
from_server (chunk b ∷ es) = b ++ from_server es
from_server (message b ∷ es) = from_server es
from_server (server_end ∷ es) = from_server es
from_server (client_end ∷ es) = from_server es

-- What holds of a tunnel with the bytes `later` still to come from guacd.
pub record IsGuarded (paste : Bool) (later : Bytes) (t : Tunnel) : Type 0 where
  pub rest : List Instruction
  pub fit : All IsInstruction rest
  pub short : All IsShort rest
  pub stream : t.server_open ≡ true → pending t.framer ++ later ≡ encode_all rest
  pub rights : IsWithin false paste t.clipboard
  pub quiet : All IsQuietSent t.to_browser

write_frame-quiet :
    (b : Bytes) (js : List Instruction) (t : Tunnel)
    → b ≡ encode_all js
    → IsQuiet js
    → All IsQuietSent t.to_browser
    → All IsQuietSent (write_frame b t).to_browser
write_frame-quiet [] js t e q h = h
write_frame-quiet (c ∷ b) js t e q h =
    All-append IsQuietSent t.to_browser (frame (c ∷ b) ∷ []) h ((js, e, q), tt)

closed_of_rights :
    {paste : Bool} {f : ClipboardFilter} → IsWithin false paste f → copy_blocked f ≡ true
closed_of_rights {f = f} v = elim (Bool-cases f.want_copy) [
  | inl w ↦ ground (arith, v.copy_within w)
  | inr w ↦ ap not w
]

-- What the filter of such a tunnel makes of a frame of instructions.
filtered :
    (is : List Instruction) (f : ClipboardFilter)
    → All IsInstruction is
    → copy_blocked f ≡ true
    → (g : ClipboardFilter) × (js : List Instruction) × (filter_to_browser (encode_all is) f
        ≡ ok (g, encode_all js))
      × IsQuiet js
filtered is f h c = (
  store server (walked server (copy_blocked f) is (start server f)) f,
  kept (copy_blocked f) f.blocked_server is,
  filter_to_browser-rewrite is f h ∙ rewrite-encode_all is f h,
  rw c (kept_closed-opens f.blocked_server is),
)

module _ {paste : Bool} {later : Bytes} where
  write_frame-IsGuarded :
      (b : Bytes) (js : List Instruction) (t : Tunnel)
      → b ≡ encode_all js
      → IsQuiet js
      → IsGuarded paste later t
      → IsGuarded paste later (write_frame b t)
  write_frame-IsGuarded [] js t e q h = h
  write_frame-IsGuarded (c ∷ b) js t e q h = record {
    rest = h.rest;
    fit = h.fit;
    short = h.short;
    stream = h.stream;
    rights = h.rights;
    quiet = write_frame-quiet (c ∷ b) js t e q h.quiet;
  }

  clipboard-IsGuarded :
      (f : ClipboardFilter) (t : Tunnel)
      → IsWithin false paste f
      → IsGuarded paste later t
      → IsGuarded paste later (record t { clipboard = f })
  clipboard-IsGuarded f t v h = record {
    rest = h.rest;
    fit = h.fit;
    short = h.short;
    stream = h.stream;
    rights = v;
    quiet = h.quiet;
  }

  pub on_pushed-IsGuarded :
      (b : Bytes) (g : List Instruction) (t : Tunnel)
      → b ≡ encode_all g
      → All IsInstruction g
      → IsGuarded paste later t
      → IsGuarded paste later (on_pushed (ok (frame_of b)) t)
  on_pushed-IsGuarded [] g t e fit h = h
  on_pushed-IsGuarded (c ∷ b) g t e fit h =
      let (f, js, same, q) = filtered g t.clipboard fit (closed_of_rights h.rights) in
      let kept_rights : IsWithin false paste f =
        rw same at (filter_to_browser-IsWithin (encode_all g) t.clipboard h.rights) in
      rw (e, same)
        (write_frame-IsGuarded (encode_all js) js (record t { clipboard = f }) refl q
          (clipboard-IsGuarded f t kept_rights h))

  answer-IsGuarded :
      (o : Option Bytes) (t : Tunnel)
      → IsGuarded paste later t
      → IsGuarded paste later (answer_with o t)
  answer-IsGuarded none t h = h
  answer-IsGuarded (some b) t h = record {
    rest = h.rest;
    fit = h.fit;
    short = h.short;
    stream = h.stream;
    rights = h.rights;
    quiet = All-append IsQuietSent t.to_browser (answer b ∷ []) h.quiet (tt, tt);
  }

  forward-IsGuarded :
      (b : Bytes) (t : Tunnel)
      → IsGuarded paste later t
      → IsGuarded paste later (record t { to_guacd = t.to_guacd ++ b })
  forward-IsGuarded b t h = record {
    rest = h.rest;
    fit = h.fit;
    short = h.short;
    stream = h.stream;
    rights = h.rights;
    quiet = h.quiet;
  }

  pub client_end-IsGuarded :
      (t : Tunnel)
      → IsGuarded paste later t
      → IsGuarded paste later (record t { client_open = false })
  client_end-IsGuarded t h = record {
    rest = h.rest;
    fit = h.fit;
    short = h.short;
    stream = h.stream;
    rights = h.rights;
    quiet = h.quiet;
  }

  refusal-IsGuarded :
      (b : Bytes) (t : Tunnel)
      → IsGuarded paste later t
      → IsGuarded paste later (answer_refusal b t)
  refusal-IsGuarded [] t h = h
  refusal-IsGuarded (c ∷ b) t h = answer-IsGuarded (some (c ∷ b)) t h

  on_forward-IsGuarded :
      (r : Result (ClipboardFilter × Bytes × Bytes)) (t : Tunnel)
      → Leaves (λ x. x.0) (IsWithin false paste) r
      → IsGuarded paste later t
      → IsGuarded paste later (on_forward r t)
  on_forward-IsGuarded (err e) t v h = client_end-IsGuarded t h
  on_forward-IsGuarded (ok (f, forward, reply)) t v h =
      forward-IsGuarded forward (answer_refusal reply (record t { clipboard = f }))
        (refusal-IsGuarded reply (record t { clipboard = f }) (clipboard-IsGuarded f t v h))

  pub if-IsGuarded :
      (b : Bool) (t u : Tunnel)
      → IsGuarded paste later t
      → IsGuarded paste later u
      → IsGuarded paste later (if b then t else u)
  if-IsGuarded true t u h k = h
  if-IsGuarded false t u h k = k

  pub from_browser-IsGuarded :
      (m : Bytes) (t : Tunnel) → IsGuarded paste later t → IsGuarded paste later (from_browser m t)
  unfolding from_browser
  from_browser-IsGuarded m t h =
      if-IsGuarded _ _ _
        (if-IsGuarded _ _ _ (answer-IsGuarded (some m) t h) (
          answer-IsGuarded (handle_control m t.clipboard).1
            (record t { clipboard = (handle_control m t.clipboard).0 })
            (clipboard-IsGuarded _ t (handle_control-IsWithin m t.clipboard h.rights) h)))
        (on_forward-IsGuarded (filter_to_guacd m t.clipboard) t
          (filter_to_guacd-IsWithin m t.clipboard h.rights) h)
