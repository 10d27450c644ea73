-- ===== src/Journal.antt =====
-- coordinator/internal/journal: the segments of a pass journal. A batch is a frame of its length and its
-- protobuf envelope. zstd, proto.Unmarshal and binary.Uvarint are parameters; a failing write and a
-- coordinator that restarts are left out.
pub mod Names
pub mod Kept
pub mod ReadBack
pub mod Dedup
pub mod Total
use drsync.Prelude.{
  ℕ, zero, suc, ◌+◌, ◌-◌, ◌%◌, ◌^◌, Bool, false, ◌&&◌, ◌||◌, List, [], ◌∷◌, ◌++◌, Option, none,
  some, Bytes, bytes_eq, ◌==◌, ltb, leb, if◌then◌else◌, length, map, take, drop,
}
use drsync.Wire.{put_le, get_le}
use drsync.Journal.Names.{sort_segments, numbered}

-- What a record is deduplicated by, with its type's number, and what it carries besides.
pub record JournalRecord : Type 0 where
  pub type_no : ℕ
  pub rel_path : Bytes

pub data ReadError : Type 0 where
  truncated_header bad_envelope bad_zstd unexpected_eof bad_record panicked out_of_fuel : ReadError

pub record JournalLib : Type 0 where
  -- proto.Unmarshal of an envelope, and the zstd frame in it
  pub unmarshal_batch : Bytes → Option Bytes
  pub decode_all : Bytes → Option Bytes
  -- binary.Uvarint: the value and the bytes it takes, or none for n <= 0
  pub uvarint : Bytes → Option (ℕ × ℕ)
  pub unmarshal_record : Bytes → Option JournalRecord

-- The records handed to the callback, and the error that ended the reading.
abbrev pub Read : Type 0
Read = List JournalRecord × Option ReadError

abbrev pub then_read : List JournalRecord → Read → Read
then_read rs (more, e) = (rs ++ more, e)

-- The rest of the reading, unless an error ended it.
abbrev pub and_read : Read → Read → Read
and_read (rs, some e) more = (rs, some e)
and_read (rs, none) more = then_read rs more

-- segmentMaxBytes
abbrev pub segment_max_bytes : ℕ
segment_max_bytes = 536870912

module _ (lib : JournalLib) where
  abbrev pub add_record : Option JournalRecord → Read → Read
  add_record none more = ([], some ReadError.bad_record)
  add_record (some r) more = then_read (r ∷ []) more

  -- A record at offset `off`, once its length is read. A sum of off, n and int(l) that is negative as an
  -- int passes the test of the source, and slicing by it panics.
  abbrev pub take_record : (Bytes → Read) → ℕ → Bytes → Option (ℕ × ℕ) → Read
  take_record more off raw none = ([], some ReadError.unexpected_eof)
  take_record more off raw (some (l, n)) =
      if leb (2 ^ 63) (off + n + l)
      then ([], some ReadError.panicked)
      else if ltb (length raw) (n + l)
      then ([], some ReadError.unexpected_eof)
      else add_record (lib.unmarshal_record (take l (drop n raw))) (more (drop (n + l) raw))

  -- forEachRecord on what is left of `size` bytes.
  unfoldable pub for_each_record : ℕ → ℕ → Bytes → Read
  for_each_record size fuel [] = ([], none)
  for_each_record size zero (b ∷ bs) = ([], some ReadError.out_of_fuel)
  for_each_record size (suc fuel) (b ∷ bs) =
      take_record (for_each_record size fuel) (size - length (b ∷ bs)) (b ∷ bs)
        (lib.uvarint (b ∷ bs))

  abbrev pub records_in : Option Bytes → Read
  records_in none = ([], some ReadError.bad_zstd)
  records_in (some raw) = for_each_record (length raw) (length raw) raw

  abbrev pub decompress : Option Bytes → Read
  decompress none = ([], some ReadError.bad_envelope)
  decompress (some records_zstd) = records_in (lib.decode_all records_zstd)

  -- One envelope: its records.
  unfoldable pub read_batch : Bytes → Read
  read_batch env = decompress (lib.unmarshal_batch env)

  -- The body of the loop over a segment, after the header; a torn tail ends it without an error.
  abbrev pub take_batch : (Bytes → Read) → ℕ → Bytes → Read
  take_batch more n rest =
      if ltb (length rest) n
      then ([], none)
      else and_read (read_batch (take n rest)) (more (drop n rest))

  abbrev pub take_header : (Bytes → Read) → Bytes → Read
  take_header more bs =
      if ltb (length bs) 4
      then ([], some ReadError.truncated_header)
      else take_batch more (get_le (take 4 bs)) (drop 4 bs)

  -- readSegment
  unfoldable pub read_segment : ℕ → Bytes → Read
  read_segment fuel [] = ([], none)
  read_segment zero (b ∷ bs) = ([], some ReadError.out_of_fuel)
  read_segment (suc fuel) (b ∷ bs) = take_header (read_segment fuel) (b ∷ bs)

  -- The loop of ReadRecords, up to the first error.
  unfoldable pub read_in_order : List Bytes → Read
  read_in_order [] = ([], none)
  read_in_order (seg ∷ segs) = and_read (read_segment (length seg) seg) (read_in_order segs)

  -- ReadRecords, on the numbers and the bytes of the segments in the directory of the pass.
  unfoldable pub read_records : List (ℕ × Bytes) → Read
  read_records segs = read_in_order (map (λ (f : ℕ × Bytes). f.1) (sort_segments segs))

-- What Append writes for a batch, by its envelope.
unfoldable pub frame : Bytes → Bytes
frame env = put_le 4 (length env % 2 ^ 32) ++ env

-- The open segment of a pass, and those that are full, in order.
pub record Segments : Type 0 where
  pub closed : List Bytes
  pub current : Bytes

-- The files of the pass: its segments are numbered from 0.
abbrev pub contents : Segments → List Bytes
contents s = s.closed ++ s.current ∷ []

abbrev pub files : Segments → List (ℕ × Bytes)
files s = numbered 0 (contents s)

abbrev pub roll : Segments → Segments
roll s =
    if leb segment_max_bytes (length s.current)
    then record { closed = s.closed ++ s.current ∷ []; current = [] }
    else s

-- Append, to the segments of the batch's pass.
unfoldable pub append_batch : Bytes → Segments → Segments
append_batch env s = let t = roll s in record t { current = t.current ++ frame env }

unfoldable pub append_batches : List Bytes → Segments → Segments
append_batches [] s = s
append_batches (env ∷ envs) s = append_batches envs (append_batch env s)

-- Summary's `seen`, the key of which is the type and the path; and the count of each type.
abbrev pub same_record : JournalRecord → JournalRecord → Bool
same_record a b = (a.type_no == b.type_no) && bytes_eq a.rel_path b.rel_path

unfoldable pub is_seen : List JournalRecord → JournalRecord → Bool
is_seen [] r = false
is_seen (x ∷ xs) r = same_record x r || is_seen xs r

-- The records that Summary counts, given those it has seen.
unfoldable pub fresh_records : List JournalRecord → List JournalRecord → List JournalRecord
fresh_records seen [] = []
fresh_records seen (r ∷ rs) =
    let later = fresh_records (r ∷ seen) rs in
    let skipped = fresh_records seen rs in if is_seen seen r then skipped else r ∷ later
