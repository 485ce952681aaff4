-- ===== src/Tests/Guac.antt =====
-- The wire protocol on a small stream: an image, a clipboard stream with one blob, and its end.
use waas.Prelude.{
  ℕ, ◌≤◌, ◌≡◌, refl, ◌≢◌, true, false, List, [], ◌∷◌, ◌++◌, Option, none, some, Bytes, codes, All,
  arith, length, take, drop, member, equal, take-append-drop,
}
use waas.Guac.Utf8.{encode_rune, decode_rune, encode_runes}
use waas.Guac.Decimal.{atoi}
use waas.Guac.Result.{Result, ok, err, bad_separator, malformed_length}
use waas.Guac.Instruction.{
  max_pending_bytes, Instruction, encode, read_element, read_instruction, IsElement, IsInstruction,
}
use waas.Guac.Instruction.RoundTrip.{read_instruction-encode}
use waas.Guac.Instruction.Ascii.{IsElement-of_ascii}
use waas.Guac.Framing.{Framer, new_framer, push, complete_prefix, emit}
use waas.Guac.Framing.Total.{push-conserves}
use waas.Guac.Clipboard.{
  ClipboardFilter, new_clipboard_filter, server, client, filter_to_browser, rewrite,
  rewrite_with_replies, blocked_of, start, store,
}
use waas.Guac.Clipboard.Streams.{
  kind, kind_with, ends, walked, kept, refused, refusals, rewrite_with_replies-encode_all,
}
use waas.Guac.Clipboard.FastPath.{filter_to_browser-rewrite}
use waas.Guac.Framing.Stream.{encode_all, whole}
use waas.Guac.Framing.Frames.{pending, IsShort, frame_of, group, left, push_stream}

abbrev pub instruction : Bytes → List Bytes → Instruction
instruction opcode args = record { opcode = opcode; args = args }

abbrev pub image : Instruction
image = instruction (codes "img") (codes "3" ∷ [])

abbrev pub clip : Instruction
clip = instruction (codes "clipboard") (codes "0" ∷ codes "text/plain" ∷ [])

abbrev pub blob : Instruction
blob = instruction (codes "blob") (codes "0" ∷ codes "aGk=" ∷ [])

abbrev pub end : Instruction
end = instruction (codes "end") (codes "0" ∷ [])

abbrev pub stream : List Instruction
stream = image ∷ clip ∷ blob ∷ end ∷ []

one-IsElement : IsElement (codes "0")
one-IsElement = IsElement-of_ascii (codes "0") (omega arith) (omega arith)

pub image-IsInstruction : IsInstruction image
image-IsInstruction = record {
  opcode_fits = IsElement-of_ascii (codes "img") (omega arith) (omega arith);
  args_fit = (IsElement-of_ascii (codes "3") (omega arith) (omega arith), tt);
}

pub clip-IsInstruction : IsInstruction clip
clip-IsInstruction = record {
  opcode_fits = IsElement-of_ascii (codes "clipboard") (omega arith) (omega arith);
  args_fit =
      (one-IsElement, (IsElement-of_ascii (codes "text/plain") (omega arith) (omega arith), tt));
}

pub blob-IsInstruction : IsInstruction blob
blob-IsInstruction = record {
  opcode_fits = IsElement-of_ascii (codes "blob") (omega arith) (omega arith);
  args_fit = (one-IsElement, (IsElement-of_ascii (codes "aGk=") (omega arith) (omega arith), tt));
}

pub end-IsInstruction : IsInstruction end
end-IsInstruction = record {
  opcode_fits = IsElement-of_ascii (codes "end") (omega arith) (omega arith);
  args_fit = (one-IsElement, tt);
}

pub stream-IsInstruction : All IsInstruction stream
stream-IsInstruction =
    (image-IsInstruction, (clip-IsInstruction, (blob-IsInstruction, (end-IsInstruction, tt))))

pub stream-IsShort : All IsShort stream
unfolding encode decode_rune
stream-IsShort = omega arith

image_bytes : encode image ≡ codes "3.img,1.3;"
unfolding encode decode_rune
image_bytes = refl

image_read : read_instruction (codes "3.img,1.3;4.") ≡ ok (image, codes "4.")
unfolding read_instruction atoi decode_rune encode_runes encode_rune read_element
image_read = refl

bad_separator_read : read_instruction (codes "3.img!") ≡ err bad_separator
unfolding read_instruction atoi decode_rune encode_runes encode_rune read_element
bad_separator_read = refl

two_frames : complete_prefix (codes "3.img,1.3;4.blo") ≡ ok 10
unfolding complete_prefix
two_frames = refl

malformed : complete_prefix (codes "x") ≡ err malformed_length
unfolding complete_prefix
malformed = refl

read_instruction-encode_example :
    read_instruction (encode clip ++ codes "4.") ≡ ok (clip, codes "4.")
read_instruction-encode_example = read_instruction-encode clip (codes "4.") clip-IsInstruction

pieces :
    pending new_framer ++ (take 17 (encode_all stream) ++ drop 17 (encode_all stream))
    ≡ encode_all stream
pieces = take-append-drop 17 (encode_all stream)

abbrev pushed : Framer × Result (Option Bytes)
pushed = push new_framer (take 17 (encode_all stream))

abbrev pushed_length : ℕ
pushed_length = length (pending new_framer ++ take 17 (encode_all stream))

push_stream_example :
    (pushed.1 ≡ ok (frame_of (encode_all (group pushed_length stream))))
    × (pending pushed.0 ++ drop 17 (encode_all stream) ≡ encode_all (left pushed_length stream))
    × (whole (length (pending pushed.0)) (left pushed_length stream) ≡ 0)
push_stream_example =
    push_stream new_framer stream (take 17 (encode_all stream)) (drop 17 (encode_all stream))
      stream-IsInstruction stream-IsShort pieces

emitted : (push new_framer (codes "3.img,1.3;4.bl")).1 ≡ ok (some (codes "3.img,1.3;"))
unfolding push complete_prefix emit
emitted = refl

push-conserves_example :
    (codes "3.img,1.3;" ++ pending (push new_framer (codes "3.img,1.3;4.bl")).0
      ≡ codes "3.img,1.3;4.bl")
    × (some (codes "3.img,1.3;") ≡ none
        → length (pending (push new_framer (codes "3.img,1.3;4.bl")).0) ≤ max_pending_bytes)
push-conserves_example =
    push-conserves new_framer (codes "3.img,1.3;4.bl") (some (codes "3.img,1.3;")) emitted

-- The token grants no copying and pasting.
abbrev paste_only : ClipboardFilter
paste_only = new_clipboard_filter false true

filter_to_browser-rewrite_example :
    filter_to_browser (encode_all stream) paste_only ≡ rewrite server (encode_all stream) paste_only
filter_to_browser-rewrite_example = filter_to_browser-rewrite stream paste_only stream-IsInstruction

rewrite_with_replies-encode_all_example :
    rewrite_with_replies client (encode_all stream) (new_clipboard_filter true false)
    ≡ ok (
      store client
          (walked client true stream (start client (new_clipboard_filter true false)))
          (new_clipboard_filter true false),
      encode_all (kept true [] stream),
      refusals client (refused true stream),
    )
unfolding new_clipboard_filter
rewrite_with_replies-encode_all_example =
    rewrite_with_replies-encode_all client stream (new_clipboard_filter true false)
      stream-IsInstruction

-- A clipboard stream is blocked, and the user opens the direction while it still runs.
abbrev reopened : ClipboardFilter
reopened = record (new_clipboard_filter true true) { blocked_server = codes "0" ∷ [] }

blocked_now : member (blocked_of server reopened) (codes "0") ≡ true
unfolding member equal
blocked_now = refl

not_ended : All (λ i. kind i ≢ ends (codes "0")) (image ∷ blob ∷ [])
unfolding kind_with equal
not_ended = (λ e. cc, (λ e. cc, tt))
