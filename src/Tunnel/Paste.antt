-- ===== src/Tunnel/Paste.antt =====
-- What a tunnel whose token does not grant pasting sends the desktop of the browser's clipboard.
use waas.Prelude.{
  ℕ, zero, suc, ◌≡◌, refl, ◌∙◌, ap, sym, inl, inr, ◌≢◌, Bool, true, false, not, List, [], ◌∷◌, ◌++◌,
  Option, none, some, Bytes, All-append, arith, length, Bool-cases, if◌then◌else◌,
}
use mathlib.Core.Path.{ap₂, subst}
use waas.Guac.Result.{Result, ok, err, >>=-eq-ok}
use waas.Guac.Instruction.{Instruction, read_instruction}
use waas.Guac.Framing.Stream.{encode_all, encode_all_nil}
use waas.Guac.Framing.Frames.{encode_all-append}
use waas.Guac.Clipboard.{
  ClipboardFilter, client, Side, Walk, walk, walk_instruction, store, start, paste_blocked,
  filter_to_guacd, rewrite_with_replies, filter_to_browser, handle_control,
}
use waas.Guac.Framing.{push}
use waas.Guac.Clipboard.Streams.{kind, opens, walked, kept, walked_nil, walked_step}
use waas.Guac.Clipboard.FastPath.{IsQuiet}
use waas.Guac.Clipboard.Blocking.{kept_closed-opens}
use waas.Guac.Clipboard.Grant.{
  IsWithin, new_clipboard_filter-IsWithin, Leaves, filter_to_browser-IsWithin,
  filter_to_guacd-IsWithin, handle_control-IsWithin,
}
use waas.Tunnel.{
  Tunnel, new_tunnel, write_frame, on_filtered, on_pushed, from_guacd, answer_with, answer_refusal,
  on_forward, from_browser, Event, chunk, message, server_end, client_end, step, run,
}

-- On any bytes, a walk that reports no error is the specification's walk over the instructions read.
walk_parsed :
    (f : ℕ) (side : Side) (closed : Bool) (w : Walk) (b : Bytes) {out : Walk}
    → walk f side closed w b ≡ ok out
    → (is : List Instruction) × (out ≡ walked side closed is w)
unfolding walk
walk_parsed zero side closed w b e = cc
walk_parsed (suc f) side closed w [] {out} e = ([], done e)
  where
    done : ok w ≡ ok out → out ≡ walked side closed [] w
    done p = let q : out ≡ w = cc in q ∙ sym (walked_nil side closed w)
walk_parsed (suc f) side closed w (c ∷ b) e =
    let ((i, rest), r, later) = >>=-eq-ok (read_instruction (c ∷ b)) _ e in
    let (is, p) = walk_parsed f side closed (walk_instruction side closed i w) rest later in
    (i ∷ is, p ∙ walked_step side closed i is w)

ok_injective : {A : Type 0} {a b : A} → ok a ≡ ok b → a ≡ b
ok_injective e = cc

-- What a closed direction forwards of any message that it accepts.
rewrite_with_replies-IsQuiet :
    (m : Bytes) (f : ClipboardFilter) {r : ClipboardFilter × Bytes × Bytes}
    → paste_blocked f ≡ true
    → rewrite_with_replies client m f ≡ ok r
    → (js : List Instruction) × (r.1 ≡ encode_all js) × IsQuiet js
unfolding rewrite_with_replies
rewrite_with_replies-IsQuiet m f {r} closed e =
    let (w, walks, stored) =
      >>=-eq-ok {B = ClipboardFilter × Bytes × Bytes}
        (walk (suc (length m)) client (paste_blocked f) (start client f) m)
        (λ w. ok (store client w f, w.out, w.reply)) {result = r} e in
    let (is, p) =
      walk_parsed (suc (length m)) client (paste_blocked f) (start client f) m {out = w} walks in
    (
      kept (paste_blocked f) f.blocked_client is,
      sym (ap (λ (x : ClipboardFilter × Bytes × Bytes). x.1) (ok_injective stored))
          ∙ ap (λ (x : Walk). x.out) p,
      subst (λ c. IsQuiet (kept c f.blocked_client is)) (sym closed)
          (kept_closed-opens f.blocked_client is),
    )

-- What holds of the tunnel: its rights, and the quiet row of instructions that guacd has received.
record IsSealed (copy : Bool) (t : Tunnel) : Type 0 where
  rights : IsWithin copy false t.clipboard
  sent : List Instruction
  spelled : t.to_guacd ≡ encode_all sent
  quiet : IsQuiet sent

filter_to_guacd-closed :
    (m : Bytes) (f : ClipboardFilter)
    → paste_blocked f ≡ true
    → filter_to_guacd m f ≡ rewrite_with_replies client m f
unfolding filter_to_guacd
filter_to_guacd-closed m f e = ground arith

module _ {copy : Bool} where
  -- a step that leaves what guacd has received
  same-IsSealed :
      (t u : Tunnel)
      → u.to_guacd ≡ t.to_guacd
      → IsWithin copy false u.clipboard
      → IsSealed copy t
      → IsSealed copy u
  same-IsSealed t u e v h = record {
    rights = v;
    sent = h.sent;
    spelled = e ∙ h.spelled;
    quiet = h.quiet;
  }

  write_frame-IsSealed :
      (b : Bytes) (t : Tunnel) → IsSealed copy t → IsSealed copy (write_frame b t)
  write_frame-IsSealed [] t h = h
  write_frame-IsSealed (c ∷ b) t h = same-IsSealed t _ refl h.rights h

  on_filtered-IsSealed :
      (r : Result (ClipboardFilter × Bytes)) (t : Tunnel)
      → Leaves (λ x. x.0) (IsWithin copy false) r
      → IsSealed copy t
      → IsSealed copy (on_filtered r t)
  on_filtered-IsSealed (err e) t v h = same-IsSealed t _ refl h.rights h
  on_filtered-IsSealed (ok (f, b)) t v h =
      write_frame-IsSealed b (record t { clipboard = f }) (same-IsSealed t _ refl v h)

  on_pushed-IsSealed :
      (r : Result (Option Bytes)) (t : Tunnel) → IsSealed copy t → IsSealed copy (on_pushed r t)
  on_pushed-IsSealed (err e) t h = same-IsSealed t _ refl h.rights h
  on_pushed-IsSealed (ok none) t h = h
  on_pushed-IsSealed (ok (some b)) t h =
      on_filtered-IsSealed (filter_to_browser b t.clipboard) t
        (filter_to_browser-IsWithin b t.clipboard h.rights) h

  from_guacd-IsSealed : (b : Bytes) (t : Tunnel) → IsSealed copy t → IsSealed copy (from_guacd b t)
  unfolding from_guacd
  from_guacd-IsSealed [] t h = h
  from_guacd-IsSealed (c ∷ b) t h =
      let u = record t { framer = (push t.framer (c ∷ b)).0 } in
      on_pushed-IsSealed (push t.framer (c ∷ b)).1 u (same-IsSealed t u refl h.rights h)

  if-IsSealed :
      (b : Bool) (t u : Tunnel)
      → IsSealed copy t
      → IsSealed copy u
      → IsSealed copy (if b then t else u)
  if-IsSealed true t u h k = h
  if-IsSealed false t u h k = k

  answer-IsSealed :
      (o : Option Bytes) (t : Tunnel) → IsSealed copy t → IsSealed copy (answer_with o t)
  answer-IsSealed none t h = h
  answer-IsSealed (some b) t h = same-IsSealed t _ refl h.rights h

  refusal-IsSealed : (b : Bytes) (t : Tunnel) → IsSealed copy t → IsSealed copy (answer_refusal b t)
  refusal-IsSealed [] t h = h
  refusal-IsSealed (c ∷ b) t h = answer-IsSealed (some (c ∷ b)) t h

  on_forward-IsSealed :
      (r : Result (ClipboardFilter × Bytes × Bytes)) (t : Tunnel)
      → Leaves (λ x. x.0) (IsWithin copy false) r
      → ((x : ClipboardFilter × Bytes × Bytes)
          → r ≡ ok x
          → (js : List Instruction) × (x.1 ≡ encode_all js) × IsQuiet js)
      → IsSealed copy t
      → IsSealed copy (on_forward r t)
  on_forward-IsSealed (err e) t v q h =
      same-IsSealed t (record t { client_open = false }) refl h.rights h
  on_forward-IsSealed (ok (f, forward, reply)) t v q h =
      let (js, e, quiet) = q (f, forward, reply) refl in
      let t' = record t { clipboard = f } in
      let u = refusal-IsSealed reply t' (same-IsSealed t t' refl v h) in
      record {
        rights = u.rights;
        sent = u.sent ++ js;
        spelled = ap₂ ◌++◌ u.spelled e ∙ sym (encode_all-append u.sent js);
        quiet = All-append (λ i. (index : Bytes) → kind i ≢ opens index) u.sent js u.quiet quiet;
      }

  paste_blocked_of : (f : ClipboardFilter) → IsWithin copy false f → paste_blocked f ≡ true
  paste_blocked_of f v = elim (Bool-cases f.want_paste) [
    | inl w ↦ ground (arith, v.paste_within w)
    | inr w ↦ ap not w
  ]

  from_browser-IsSealed :
      (m : Bytes) (t : Tunnel) → IsSealed copy t → IsSealed copy (from_browser m t)
  unfolding from_browser
  from_browser-IsSealed m t h =
      if-IsSealed _ _ _
        (if-IsSealed _ _ _ (answer-IsSealed (some m) t h) (
          let (f, reply) = handle_control m t.clipboard in
          let u = record t { clipboard = f } in
          answer-IsSealed reply u
            (same-IsSealed t u refl (handle_control-IsWithin m t.clipboard h.rights) h)))
        (on_forward-IsSealed (filter_to_guacd m t.clipboard) t
          (filter_to_guacd-IsWithin m t.clipboard h.rights)
          (λ x e.
            let closed = paste_blocked_of t.clipboard h.rights in
            rewrite_with_replies-IsQuiet m t.clipboard {r = x} closed
              (sym (filter_to_guacd-closed m t.clipboard closed) ∙ e))
          h)

  step-IsSealed : (e : Event) (t : Tunnel) → IsSealed copy t → IsSealed copy (step e t)
  unfolding step
  step-IsSealed (chunk b) t h = if-IsSealed _ _ _ (from_guacd-IsSealed b t h) h
  step-IsSealed (message b) t h = if-IsSealed _ _ _ (from_browser-IsSealed b t h) h
  step-IsSealed server_end t h = same-IsSealed t (record t { server_open = false }) refl h.rights h
  step-IsSealed client_end t h = same-IsSealed t (record t { client_open = false }) refl h.rights h

  run-IsSealed : (es : List Event) (t : Tunnel) → IsSealed copy t → IsSealed copy (run es t)
  unfolding run
  run-IsSealed [] t h = h
  run-IsSealed (e ∷ es) t h = run-IsSealed es (step e t) (step-IsSealed e t h)

-- If the token does not grant pasting, then whatever bytes the browser and guacd send and in
-- whatever order, all that guacd receives is a row of whole instructions of which none opens a
-- clipboard stream.
pub run-sealed :
    (copy : Bool) (es : List Event)
    → (js : List Instruction) × ((run es (new_tunnel copy false)).to_guacd ≡ encode_all js)
      × IsQuiet js
run-sealed copy es =
    let s = run-IsSealed es (new_tunnel copy false) (record {
      rights = new_clipboard_filter-IsWithin copy false;
      sent = [];
      spelled = sym encode_all_nil;
      quiet = tt;
    }) in
    (s.sent, s.spelled, s.quiet)
