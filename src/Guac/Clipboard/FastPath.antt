-- ===== src/Guac/Clipboard/FastPath.antt =====
-- The fast path of `FilterToBrowser`: its byte search against the walk.
use waas.Prelude.{
  ℕ, ◌+◌, ◌≡◌, refl, ◌∙◌, ap, sym, inl, inr, ◌≢◌, Bool, true, false, not, ◌&&◌, ◌||◌, List, [], ◌∷◌,
  ◌++◌, Bytes, All, codes, length, arith, Bool-cases, if◌then◌else◌, equal, equal_sound, member,
  contains, has_prefix, has_prefix-append, append_assoc,
}
use waas.Guac.Utf8.{decode_rune}
use waas.Guac.Result.{Result, ok}
use waas.Guac.Instruction.{Instruction, encode, write_element, write_args, IsInstruction}
use mathlib.Core.Path.{ap₂}
use waas.Guac.Framing.Stream.{encode_all, encode_all_cons}
use waas.Guac.Clipboard.{
  ClipboardFilter, server, rewrite, store, start, filter_to_browser, copy_blocked, clipboard_opcode,
  is_empty,
}
use waas.Guac.Clipboard.Streams.{
  walked, Kind, opens, continues, ends, other, kind, kind_with, kept, blocked_after, refused,
  refuses, passes, behind, rewrite_with_replies-encode_all,
}

-- No instruction opens a clipboard stream.
abbrev pub IsQuiet : List Instruction → Type 0
IsQuiet = All (λ i. (index : Bytes) → kind i ≢ opens index)

opcode_of_opens :
    (opcode : Bytes) (args : List Bytes) (index : Bytes)
    → kind_with opcode args ≡ opens index
    → (more : List Bytes) × (opcode ≡ codes "clipboard") × (args ≡ index ∷ more)
unfolding kind_with
opcode_of_opens opcode [] index h = cc
opcode_of_opens opcode (x ∷ more) index h = elim (Bool-cases (equal opcode (codes "clipboard"))) [
  | inl e ↦ (more, equal_sound opcode (codes "clipboard") e, ground arith)
  | inr e ↦ ground arith
]

encode_clipboard :
    (index : Bytes) (more : List Bytes)
    → encode (record { opcode = codes "clipboard"; args = index ∷ more })
      ≡ clipboard_opcode ++ (write_element index ++ write_args more)
unfolding encode decode_rune
encode_clipboard index more = refl

contains_of_prefix : (b p : Bytes) → has_prefix b p ≡ true → contains b p ≡ true
unfolding contains
contains_of_prefix [] p h = h
contains_of_prefix (c ∷ b) p h = ground arith

contains-append : (xs ys p : Bytes) → contains ys p ≡ true → contains (xs ++ ys) p ≡ true
unfolding contains
contains-append [] ys p h = h
contains-append (x ∷ xs) ys p h = ground (arith, contains-append xs ys p h)

encode_eq :
    (i : Instruction) (index : Bytes) (more : List Bytes)
    → i.opcode ≡ codes "clipboard"
    → i.args ≡ index ∷ more
    → encode i ≡ encode (record { opcode = codes "clipboard"; args = index ∷ more })
encode_eq i index more o a = λ k. encode (record { opcode = o k; args = a k })

encode_opens :
    (i : Instruction) (index rest : Bytes)
    → kind i ≡ opens index
    → contains (encode i ++ rest) clipboard_opcode ≡ true
encode_opens i index rest h =
    let (more, o, a) = opcode_of_opens i.opcode i.args index h in
    let tail : Bytes = write_element index ++ write_args more in
    let spelled : encode i ++ rest ≡ clipboard_opcode ++ (tail ++ rest) =
      ap (λ b. b ++ rest) (encode_eq i index more o a ∙ encode_clipboard index more)
      ∙ append_assoc clipboard_opcode tail rest in
    ap (λ b. contains b clipboard_opcode) spelled
    ∙ contains_of_prefix (clipboard_opcode ++ (tail ++ rest)) clipboard_opcode
        (has_prefix-append clipboard_opcode (tail ++ rest))

not_true : {b : Bool} → b ≡ true → b ≡ false → ⊥
not_true e f = cc

-- A frame in which the search finds nothing opens no clipboard stream.
IsQuiet-of_search :
    (is : List Instruction) → contains (encode_all is) clipboard_opcode ≡ false → IsQuiet is
IsQuiet-of_search [] h = tt
IsQuiet-of_search (i ∷ is) h =
    let cons = ap (λ b. contains b clipboard_opcode) (encode_all_cons i is) in
    (
      λ index e. not_true (encode_opens i index (encode_all is) e) (sym cons ∙ h),
      IsQuiet-of_search is (elim (Bool-cases (contains (encode_all is) clipboard_opcode)) [
        | inl found ↦ absurd (
            not_true (contains-append (encode i) (encode_all is) clipboard_opcode found)
              (sym cons ∙ h))
        | inr missed ↦ missed
      ]),
    )

quiet_kind :
    (closed : Bool) (k : Kind)
    → (closed ≡ true → (index : Bytes) → k ≢ opens index)
    → (passes closed [] k ≡ true) × (behind closed [] k ≡ []) × (refuses closed k ≡ [])
unfolding member
quiet_kind true (opens index) h = absurd (h refl index refl)
quiet_kind false (opens index) h = (refl, refl, refl)
quiet_kind true (continues index) h = (refl, refl, refl)
quiet_kind false (continues index) h = (refl, refl, refl)
quiet_kind true (ends index) h = (refl, refl, refl)
quiet_kind false (ends index) h = (refl, refl, refl)
quiet_kind true other h = (refl, refl, refl)
quiet_kind false other h = (refl, refl, refl)

-- With no stream blocked, the walk keeps all if copying is allowed or the frame is quiet.
quiet_all :
    (closed : Bool) (is : List Instruction)
    → (closed ≡ true → IsQuiet is)
    → (kept closed [] is ≡ is) × (blocked_after closed [] is ≡ []) × (refused closed is ≡ [])
unfolding kept blocked_after refused
quiet_all closed [] h = (refl, refl, refl)
quiet_all closed (i ∷ is) h =
    let (k, b, r) = quiet_all closed is (λ e. (h e).1) in
    let (p, q, s) = quiet_kind closed (kind i) (λ e. (h e).0) in
    (rw (p, q) (ap (◌∷◌ i) k), rw q b, rw (s, r) refl)

pub rewrite-encode_all :
    (is : List Instruction) (f : ClipboardFilter)
    → All IsInstruction is
    → let closed = copy_blocked f in
      rewrite server (encode_all is) f
      ≡ ok (
        store server (walked server closed is (start server f)) f,
        encode_all (kept closed f.blocked_server is),
      )
unfolding rewrite
rewrite-encode_all is f h = rw (rewrite_with_replies-encode_all server is f h)

rewrite_quiet :
    (is : List Instruction) (f : ClipboardFilter)
    → All IsInstruction is
    → f.blocked_server ≡ []
    → (copy_blocked f ≡ true → IsQuiet is)
    → rewrite server (encode_all is) f ≡ ok (f, encode_all is)
rewrite_quiet is f h e quiet =
    let closed = copy_blocked f in
    let (k, b, r) = quiet_all closed is quiet in
    let same : store server (walked server closed is (start server f)) f ≡ f = λ t. record f {
      blocked_server = (ap (λ bl. blocked_after closed bl is) e ∙ b ∙ sym e) t;
      copies_blocked = counted closed is f.copies_blocked r t;
    } in
    rewrite-encode_all is f h
    ∙ ap₂ {B = Bytes} {C = Result (ClipboardFilter × Bytes)} (λ g bytes. ok (g, bytes)) same
        (ap (λ bl. encode_all (kept closed bl is)) e ∙ ap encode_all k)
  where
    counted :
        (closed : Bool) (is : List Instruction) (n : ℕ)
        → refused closed is ≡ []
        → n + (0 + length (refused closed is)) ≡ n
    counted closed is n r = omega (arith, ap length r)

is_empty-nil : (l : List Bytes) → is_empty l ≡ true → l ≡ []
is_empty-nil [] h = refl
is_empty-nil (x ∷ xs) h = cc

-- `FilterToBrowser` with its fast path returns on every frame of instructions what the walk over all
-- of its instructions returns: the same bytes, and the same filter behind it.
pub filter_to_browser-rewrite :
    (is : List Instruction) (f : ClipboardFilter)
    → All IsInstruction is
    → filter_to_browser (encode_all is) f ≡ rewrite server (encode_all is) f
unfolding filter_to_browser
filter_to_browser-rewrite is f h =
    by_test
      (is_empty f.blocked_server
        && (not (copy_blocked f) || not (contains (encode_all is) clipboard_opcode)))
      refl
  where
    by_test :
        (fast : Bool)
        → (is_empty f.blocked_server
            && (not (copy_blocked f) || not (contains (encode_all is) clipboard_opcode)))
          ≡ fast
        → (if fast then ok (f, encode_all is) else rewrite server (encode_all is) f)
          ≡ rewrite server (encode_all is) f
    by_test true e = sym (
        rewrite_quiet is f h (is_empty-nil f.blocked_server (ground arith))
          (λ closed. IsQuiet-of_search is (ground arith)))
    by_test false e = refl
