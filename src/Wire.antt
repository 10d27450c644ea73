-- ===== src/Wire.antt =====
-- coordinator/internal/wire/frame.go: the frame codec. A stream is the bytes still to be read.
pub mod RoundTrip
use drsync.Prelude.{
  ℕ, zero, suc, ◌+◌, ◌*◌, ◌/◌, ◌%◌, Bool, List, [], ◌∷◌, ◌++◌, Option, none, some, Bytes, ltb, leb,
  if◌then◌else◌, length, take, drop,
}

-- MaxFrameLen
abbrev pub max_frame_len : ℕ
max_frame_len = 16777216

-- binary.LittleEndian: a number in as many bytes, and the number that bytes stand for.
unfoldable pub put_le : ℕ → ℕ → Bytes
put_le zero v = []
put_le (suc n) v = v % 256 ∷ put_le n (v / 256)

unfoldable pub get_le : Bytes → ℕ
get_le [] = 0
get_le (b ∷ bs) = b + 256 * get_le bs

-- WriteFrame on a marshalled payload; none is the error on a payload that is too long.
unfoldable pub write_frame : ℕ → Bytes → Option Bytes
write_frame frame_type payload =
    if ltb max_frame_len (length payload)
    then none
    else some (put_le 4 (length payload) ++ put_le 2 (frame_type % 65536) ++ payload)

-- io.ReadFull: the bytes read and those left, or none when the stream ends before.
abbrev pub read_full : ℕ → Bytes → Option (Bytes × Bytes)
read_full n bs = if leb n (length bs) then some (take n bs, drop n bs) else none

pub data Frame : Type 0 where
  got : ℕ → Bytes → Bytes → Frame
  too_long : Frame
  short_header : Frame
  short_payload : Frame

abbrev pub read_payload : ℕ → Option (Bytes × Bytes) → Frame
read_payload frame_type none = Frame.short_payload
read_payload frame_type (some (payload, rest)) = Frame.got frame_type payload rest

abbrev pub read_header : Option (Bytes × Bytes) → Frame
read_header none = Frame.short_header
read_header (some (hdr, rest)) =
    let n = get_le (take 4 hdr) in
    if ltb max_frame_len n
    then Frame.too_long
    else read_payload (get_le (drop 4 hdr)) (read_full n rest)

-- ReadFrame: the frame type and payload, and the rest of the stream.
unfoldable pub read_frame : Bytes → Frame
read_frame bs = read_header (read_full 6 bs)
