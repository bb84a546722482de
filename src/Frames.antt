-- ===== src/Frames.antt =====
-- Length-prefixed frames: include/matching_engine/net/frame_decoder.hpp.
pub mod Stream
pub mod Pending
pub mod RoundTrip
use order_book_matching_engi.Common.{
  ℕ, zero, suc, ◌+◌, ◌-◌, ◌*◌, ◌%◌, ◌^◌, ◌==◌, ltb, ◌&&◌, Bool, true, false, length, take, drop,
  if◌then◌else◌, Option, none, some, List, [], ◌∷◌, ◌++◌,
}
use order_book_matching_engi.Wire.{Bytes, push_bytes, or_bytes}

abbrev pub length_prefix_bytes : ℕ
length_prefix_bytes = 4

abbrev pub max_frame_bytes : ℕ
max_frame_bytes = 64 * 1024

-- `FrameDecoder`: the bytes of `buffer` before `read_offset` have been consumed.
pub record FrameDecoder : Type 0 where
  pub buffer : Bytes
  pub read_offset : ℕ

abbrev pub new_decoder : FrameDecoder
new_decoder = record { buffer = []; read_offset = 0 }

unfoldable pub feed : FrameDecoder → Bytes → FrameDecoder
feed d chunk = record d { buffer = d.buffer ++ chunk }

unfoldable pub buffered_bytes : FrameDecoder → ℕ
buffered_bytes d = length d.buffer - d.read_offset

unfoldable pub compact : FrameDecoder → FrameDecoder
compact d =
    if d.read_offset == length d.buffer
    then record { buffer = []; read_offset = 0 }
    else if ltb 0 d.read_offset && ltb (length d.buffer) (d.read_offset * 2)
    then record { buffer = drop d.read_offset d.buffer; read_offset = 0 }
    else d

-- What `TryExtractFrame` answers: `false`, `false` with `protocol_error`, or `true` with the body.
pub data Outcome : Type 0 where
  waiting : Outcome
  too_long : Outcome
  frame : Bytes → Outcome

-- The declared length, `length |= base[i] << (8 * i)` over the prefix.
abbrev pub declared_length : Bytes → ℕ
declared_length bytes = or_bytes 32 0 0 (take 4 bytes)

unfoldable pub try_extract_frame : FrameDecoder → Outcome × FrameDecoder
try_extract_frame d =
    let available = length d.buffer - d.read_offset in
    let base = drop d.read_offset d.buffer in
    let n = declared_length base in
    if ltb available length_prefix_bytes
    then (waiting, compact d)
    else if ltb max_frame_bytes n
    then (too_long, d)
    else if ltb available (length_prefix_bytes + n)
    then (waiting, compact d)
    else (
      frame (take n (drop length_prefix_bytes base)),
      compact (record d { read_offset = d.read_offset + (length_prefix_bytes + n) }),
    )

-- What draining a decoder gives: the bodies, whether it met a protocol error, and the decoder.
pub record Drained : Type 0 where
  pub frames : List Bytes
  pub failed : Bool
  pub decoder : FrameDecoder

abbrev pub put_frame : Bytes → Option Drained → Option Drained
put_frame body none = none
put_frame body (some r) = some (record r { frames = body ∷ r.frames })

-- The loop of its callers: `TryExtractFrame` until it returns `false`. `none`: the fuel ran out.
unfoldable pub drain : ℕ → FrameDecoder → Option Drained
drain zero d = none
drain (suc fuel) d =
    let d' = (try_extract_frame d).1 in
    let rest = drain fuel d' in
    elim (try_extract_frame d).0 [
      | waiting ↦ some (record { frames = []; failed = false; decoder = d' })
      | too_long ↦ some (record { frames = []; failed = true; decoder = d' })
      | frame body ↦ put_frame body rest
    ]

-- `FrameMessage`; the length is cast to `uint32_t`.
unfoldable pub frame_message : Bytes → Bytes
frame_message body = push_bytes 4 0 (length body % 2 ^ 32) ++ body
