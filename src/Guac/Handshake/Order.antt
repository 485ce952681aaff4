-- ===== src/Guac/Handshake/Order.antt =====
-- What the handshake writes, and in which order.
use waas.Prelude.{
  ℕ, zero, suc, ◌≡◌, refl, ◌∙◌, ap, sym, Bool, true, false, ◌||◌, List, [], ◌∷◌, ◌++◌, Option,
  Bytes, codes, arith, if◌then◌else◌, equal, length, take, append-nil, append_assoc,
}
use waas.Guac.Result.{Result, ok, err, write_failed, not_args}
use waas.Guac.Instruction.{Instruction, encode, read_instruction, IsInstruction}
use waas.Guac.Instruction.RoundTrip.{read_instruction-encode}
use waas.Guac.Framing.Stream.{encode_all, encode_all_nil, encode_all_cons}
use waas.Guac.Handshake.{
  ConnectionParams, Conn, Io, and_then, ◌>>=◌, ◌>>◌, send, received, receive, has_version,
  param_value, instruction, select, size, audio, video, image, connect, check_ready, after_args,
  handshake,
}

abbrev pub script : ConnectionParams → List Bytes → List Instruction
script params names =
    select params ∷ size params ∷ audio ∷ video ∷ image ∷ connect params names ∷ []

-- the parameter names that guacd announces, if it does
abbrev pub announced : Result (Instruction × Bytes) → List Bytes
announced (err e) = []
announced (ok (i, rest)) = i.args

-- Behind `base`, the first instructions of the script were written, and all of them in case of success.
abbrev pub IsFollowed : {A : Type 0} → Bytes → List Instruction → Conn × Result A → Type 0
IsFollowed {A} base is r =
    (k : ℕ) × (r.0.output ≡ base ++ encode_all (take k is)) × ((a : A) → r.1 ≡ ok a → k ≡ length is)

stopped :
    {A : Type 0} (c : Conn) (is : List Instruction) (r : Result A)
    → ((a : A) → r ≡ ok a → 0 ≡ length is)
    → IsFollowed c.output is (c, r)
stopped c is r h = (0, sym (ap (λ b. c.output ++ b) encode_all_nil ∙ append-nil c.output), h)

written :
    {A : Type 0} (c : Conn) (i : Instruction) (is : List Instruction) (r : Conn × Result A)
    → IsFollowed (c.output ++ encode i) is r
    → IsFollowed c.output (i ∷ is) r
written c i is r (k, out, all) = (
  suc k,
  out
      ∙ append_assoc c.output (encode i) (encode_all (take k is))
      ∙ ap (λ b. c.output ++ b) (sym (encode_all_cons i (take k is))),
  λ a e. ap suc (all a e),
)

send-IsFollowed :
    {B : Type 0} (i : Instruction) (next : Io B) (is : List Instruction) (c : Conn)
    → ((d : Conn) → IsFollowed d.output is (next d))
    → IsFollowed c.output (i ∷ is) ((send i >> next) c)
unfolding send
send-IsFollowed {B} i next is c h = by_writes c.writes_left
  where
    by_writes :
        (n : ℕ)
        → IsFollowed c.output (i ∷ is) (
            and_then {A = Unit {0}} {B = B}
              (λ _. next)
              (elim n as (λ _. Conn × Result (Unit {0})) [
                | zero ↦ (c, err write_failed)
                | suc m ↦ (record c { output = c.output ++ encode i; writes_left = m }, ok tt)
              ]))
    by_writes zero = stopped c (i ∷ is) (err write_failed) (λ a e. cc)
    by_writes (suc m) =
        let d : Conn = record c { output = c.output ++ encode i; writes_left = m } in
        written c i is (next d) (h d)

-- what reads and tests but does not write
unwritten :
    {A : Type 0} (c d : Conn) (r : Result A) → d.output ≡ c.output → IsFollowed c.output [] (d, r)
unwritten c d r e =
    (0, e ∙ sym (ap (λ b. c.output ++ b) encode_all_nil ∙ append-nil c.output), λ a _. refl)

ready-IsFollowed : (c : Conn) → IsFollowed c.output [] ((receive >>= check_ready) c)
unfolding receive
ready-IsFollowed c = by_input (read_instruction c.input)
  where
    by_input :
        (r : Result (Instruction × Bytes))
        → IsFollowed c.output [] (and_then check_ready (received c r))
    by_input (err e) = unwritten c c (err e) refl
    by_input (ok (i, rest)) = unwritten c (record c { input = rest }) _ refl

test-IsFollowed :
    {B : Type 0} (b : Bool) (next : Io B) (is : List Instruction) (c : Conn)
    → IsFollowed c.output is (next c)
    → IsFollowed c.output is
        (and_then {A = Unit {0}} {B = B} (λ _. next) (c, (if b then ok tt else err not_args)))
test-IsFollowed true next is c h = h
test-IsFollowed false next is c h = stopped c is (err not_args) (λ a e. cc)

after_args-IsFollowed :
    (params : ConnectionParams) (args : Instruction) (c : Conn)
    → IsFollowed c.output
        (size params ∷ audio ∷ video ∷ image ∷ connect params args.args ∷ [])
        (after_args params args c)
unfolding after_args
after_args-IsFollowed params args c =
    let last : Instruction = connect params args.args in
    let ready : Io Bytes = receive >>= check_ready in
    let from_connect : Io Bytes = send last >> ready in
    let from_image : Io Bytes = send image >> from_connect in
    let from_video : Io Bytes = send video >> from_image in
    let from_audio : Io Bytes = send audio >> from_video in
    let from_size : Io Bytes = send (size params) >> from_audio in
    test-IsFollowed (equal args.opcode (codes "args")) from_size
      (size params ∷ audio ∷ video ∷ image ∷ last ∷ []) c
      (send-IsFollowed (size params) from_audio (audio ∷ video ∷ image ∷ last ∷ []) c (λ d1.
        send-IsFollowed audio from_video (video ∷ image ∷ last ∷ []) d1 (λ d2.
          send-IsFollowed video from_image (image ∷ last ∷ []) d2 (λ d3.
            send-IsFollowed image from_connect (last ∷ []) d3
              (λ d4. send-IsFollowed last ready [] d4 ready-IsFollowed)))))

-- Whatever guacd sends and wherever the connection breaks, the handshake writes a beginning of its
-- script (select, size, audio, video, image, and connect with one value for each parameter that
-- guacd announced, in its order), in this order, and if it succeeds, the whole script.
pub handshake-IsFollowed :
    (params : ConnectionParams) (c : Conn)
    → IsFollowed c.output
        (script params (announced (read_instruction c.input)))
        (handshake params c)
unfolding handshake send receive
handshake-IsFollowed params c = by_writes c.writes_left
  where
    next : Io Bytes
    next = receive >>= after_args params

    names : List Bytes
    names = announced (read_instruction c.input)

    by_read :
        (d : Conn) (r : Result (Instruction × Bytes))
        → IsFollowed d.output
            (size params ∷ audio ∷ video ∷ image ∷ connect params (announced r) ∷ [])
            (and_then {A = Instruction} {B = Bytes} (after_args params) (received d r))
    by_read d (err e) =
        stopped d (size params ∷ audio ∷ video ∷ image ∷ connect params [] ∷ []) (err e) (λ a k. cc)
    by_read d (ok (args, rest)) = after_args-IsFollowed params args (record d { input = rest })

    by_writes :
        (n : ℕ)
        → IsFollowed c.output (script params names) (
            and_then {A = Unit {0}} {B = Bytes}
              (λ _. next)
              (elim n as (λ _. Conn × Result (Unit {0})) [
                | zero ↦ (c, err write_failed)
                | suc m ↦ (
                  record c { output = c.output ++ encode (select params); writes_left = m },
                  ok tt,
                )
              ]))
    by_writes zero = stopped c (script params names) (err write_failed) (λ a e. cc)
    by_writes (suc m) =
        let d : Conn = record c { output = c.output ++ encode (select params); writes_left = m } in
        written c (select params) (size params ∷ audio ∷ video ∷ image ∷ connect params names ∷ [])
          (next d) (by_read d (read_instruction c.input))

-- A connection on which guacd announces parameters and reports that it is ready.
abbrev pub greeting : List Bytes → List Bytes → Bytes → Bytes → ℕ → Conn
greeting names ready rest output n = record {
  input =
      encode (instruction (codes "args") names)
      ++ (encode (instruction (codes "ready") ready) ++ rest);
  output = output;
  writes_left = suc (suc (suc (suc (suc (suc n)))));
}

handshake-greeting :
    (params : ConnectionParams) (names more : List Bytes) (id rest output : Bytes) (n : ℕ)
    → read_instruction (
        encode (instruction (codes "args") names)
        ++ (encode (instruction (codes "ready") (id ∷ more)) ++ rest))
      ≡ ok (
        instruction (codes "args") names,
        encode (instruction (codes "ready") (id ∷ more)) ++ rest,
      )
    → read_instruction (encode (instruction (codes "ready") (id ∷ more)) ++ rest)
      ≡ ok (instruction (codes "ready") (id ∷ more), rest)
    → ((handshake params (greeting names (id ∷ more) rest output n)).1 ≡ ok id)
      × ((handshake params (greeting names (id ∷ more) rest output n)).0.input ≡ rest)
unfolding handshake after_args send receive equal
handshake-greeting params names more id rest output n e f = (rw e (rw f refl), rw e (rw f refl))

-- If guacd announces its parameters and reports that it is ready, and the connection takes the six
-- writes, the handshake succeeds with the connection id, has written its whole script, and leaves in
-- the reader exactly what guacd sent after that.
pub handshake-connected :
    (params : ConnectionParams) (names more : List Bytes) (id rest output : Bytes) (n : ℕ)
    → IsInstruction (instruction (codes "args") names)
    → IsInstruction (instruction (codes "ready") (id ∷ more))
    → ((handshake params (greeting names (id ∷ more) rest output n)).1 ≡ ok id)
      × ((handshake params (greeting names (id ∷ more) rest output n)).0.input ≡ rest)
      × ((handshake params (greeting names (id ∷ more) rest output n)).0.output
          ≡ output ++ encode_all (script params names))
handshake-connected params names more id rest output n args_fit ready_fit =
    let ready : Instruction = instruction (codes "ready") (id ∷ more) in
    let c : Conn = greeting names (id ∷ more) rest output n in
    let first =
      read_instruction-encode (instruction (codes "args") names) (encode ready ++ rest) args_fit in
    let second = read_instruction-encode ready rest ready_fit in
    let (k, out, all) = handshake-IsFollowed params c in
    let (success, left) = handshake-greeting params names more id rest output n first second in
    let whole : k ≡ 6 = all id success in
    (
      success,
      left,
      out
          ∙ ap
              (λ m.
                output
                ++ encode_all (take m (script params (announced (read_instruction c.input)))))
              whole
          ∙ ap (λ r. output ++ encode_all (script params (announced r))) first,
    )

-- Nothing that the user or the template put into Extra changes where guacd connects to: the values of
-- the version, the host name and the port do not depend on it.
pub param_value-managed :
    (params : ConnectionParams) (extra : Bytes → Option Bytes) (name : Bytes)
    → (has_version name || equal name (codes "hostname") || equal name (codes "port")) ≡ true
    → param_value (record params { extra = extra }) name ≡ param_value params name
unfolding param_value
param_value-managed params extra name h = ground arith
