-- ===== src/Examples/WireRuns.antt =====
-- A frame written and read back, with a byte of the next one after it.
use drsync.Prelude.{◌+◌, ◌≡◌, ◌≤◌, refl, [], ◌∷◌, ◌++◌, Bytes, length, arith}
use drsync.Wire.{max_frame_len, put_le, get_le, write_frame, Frame, read_frame}
use drsync.Wire.RoundTrip.{read_frame-write_frame, read_frame_bounds}

abbrev payload : Bytes
payload = 7 ∷ 8 ∷ []

abbrev frame : Bytes
frame = 2 ∷ 0 ∷ 0 ∷ 0 ∷ 3 ∷ 1 ∷ 7 ∷ 8 ∷ []

abbrev more : Bytes
more = 9 ∷ []

read_frame-write_frame_example : read_frame (frame ++ more) ≡ Frame.got 259 payload more
unfolding write_frame put_le
read_frame-write_frame_example = read_frame-write_frame 259 payload frame more (omega arith) refl

read_frame_bounds_example :
    (length payload ≤ max_frame_len) × (length (frame ++ more) ≡ 6 + length payload + length more)
unfolding read_frame get_le
read_frame_bounds_example = read_frame_bounds (frame ++ more) payload more 259 refl
