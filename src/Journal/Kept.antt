-- ===== src/Journal/Kept.antt =====
-- coordinator/internal/journal: readSegment on what Append wrote, and on a segment whose last write was cut
-- short.
use mathlib.Core.List.{append_assoc}
use drsync.Prelude.{
  ℕ, zero, suc, ◌%◌, ◌^◌, ◌≡◌, ◌≤◌, ◌<◌, ◌⊎◌, refl, sym, ap, ◌∙◌, false, List, [], ◌∷◌, ◌++◌,
  Option, none, some, Bytes, ltb, length, length-append, take, drop, take-length_append,
  drop-length_append, All, arith, inl, inr,
}
use drsync.Wire.{put_le, get_le}
use drsync.Wire.RoundTrip.{length-put_le, get_le-put_le}
use drsync.Journal.{
  JournalLib, JournalRecord, Read, ReadError, then_read, and_read, read_batch, take_batch,
  take_header, read_segment, frame,
}

-- The bytes of batches one after the other.
abbrev pub frames : List Bytes → Bytes
frames [] = []
frames (e ∷ es) = frame e ++ frames es

header_lem :
    (n : ℕ) (rest : Bytes)
    → n < 2 ^ 32
    → (get_le (take 4 (put_le 4 n ++ rest)) ≡ n)
      × (drop 4 (put_le 4 n ++ rest) ≡ rest)
      × (ltb (length (put_le 4 n ++ rest)) 4 ≡ false)
header_lem n rest h =
    let l = length-put_le 4 n in
    (
      ap (λ k. get_le (take k (put_le 4 n ++ rest))) (sym l)
          ∙ (ap get_le (take-length_append (put_le 4 n) rest)
              ∙ get_le-put_le 4 n (omega (arith, h))),
      ap (λ k. drop k (put_le 4 n ++ rest)) (sym l) ∙ drop-length_append (put_le 4 n) rest,
      ground (arith, l, length-append (put_le 4 n) rest),
    )

module _ (lib : JournalLib) where
  -- A batch that reads without an error and whose length fits the header.
  abbrev pub IsReadable : Bytes → Type 0
  IsReadable env = ((read_batch lib env).1 ≡ none) × (length env < 2 ^ 32)

  -- The records of batches, in order.
  abbrev pub records_of : List Bytes → List JournalRecord
  records_of [] = []
  records_of (e ∷ es) = (read_batch lib e).0 ++ records_of es

  -- Nothing, or a whole header with less of a batch than it announces.
  abbrev pub IsTorn : Bytes → Type 0
  IsTorn tail =
      (tail ≡ [])
      ⊎ ((n : ℕ) × (part : Bytes) × (tail ≡ put_le 4 n ++ part) × (n < 2 ^ 32) × (length part < n))

  segment_step :
      (fuel : ℕ) (bs : Bytes)
      → 0 < length bs
      → read_segment lib (suc fuel) bs ≡ take_header lib (read_segment lib fuel) bs
  unfolding read_segment
  segment_step fuel [] h = absurd (omega (arith, h))
  segment_step fuel (b ∷ bs) h = refl

  header_step :
      (more : Bytes → Read) (n : ℕ) (rest : Bytes)
      → n < 2 ^ 32
      → take_header lib more (put_le 4 n ++ rest) ≡ take_batch lib more n rest
  header_step more n rest h = let w = header_lem n rest h in rw (w.2, w.0, w.1) refl

  torn_lem :
      (fuel : ℕ) (tail : Bytes)
      → IsTorn tail
      → length tail ≤ fuel
      → read_segment lib fuel tail ≡ ([], none)
  unfolding read_segment
  torn_lem fuel tail (inl e) h = rw e refl
  torn_lem zero tail (inr (n, part, e, l, s)) h =
      absurd (omega (arith, ap length e, length-append (put_le 4 n) part, length-put_le 4 n))
  torn_lem (suc fuel) tail (inr (n, part, e, l, s)) h = rw e (
      segment_step fuel (put_le 4 n ++ part)
        (omega (arith, length-append (put_le 4 n) part, length-put_le 4 n))
      ∙ (header_step (read_segment lib fuel) n part l ∙ ground (arith, s)))

  batch_step :
      (more : Bytes → Read) (e rest : Bytes)
      → (read_batch lib e).1 ≡ none
      → take_batch lib more (length e) (e ++ rest) ≡ then_read (read_batch lib e).0 (more rest)
  batch_step more e rest h =
      let fits : ltb (length (e ++ rest)) (length e) ≡ false =
        ground (arith, length-append e rest) in
      rw (fits, take-length_append e rest, drop-length_append e rest)
        (by_batch (read_batch lib e) (more rest) h)
    where
      by_batch : (q : Read) (after : Read) → q.1 ≡ none → and_read q after ≡ then_read q.0 after
      by_batch (rs, none) after z = refl
      by_batch (rs, some x) after z = cc

  frame_bytes :
      (e : Bytes) (es : List Bytes) (tail : Bytes)
      → length e < 2 ^ 32
      → frames (e ∷ es) ++ tail ≡ put_le 4 (length e) ++ (e ++ (frames es ++ tail))
  unfolding frame
  frame_bytes e es tail h =
      let m : length e % 2 ^ 32 ≡ length e = omega arith in
      rw m (
        append_assoc (put_le 4 (length e) ++ e) (frames es) tail
        ∙ append_assoc (put_le 4 (length e)) e (frames es ++ tail))

  read_frames :
      (es : List Bytes) (tail : Bytes) (q : Option ReadError) (fuel : ℕ)
      → All IsReadable es
      → ((k : ℕ) → length tail ≤ k → read_segment lib k tail ≡ ([], q))
      → length (frames es ++ tail) ≤ fuel
      → read_segment lib fuel (frames es ++ tail) ≡ (records_of es, q)
  read_frames [] tail q fuel r t h = t fuel h
  read_frames (e ∷ es) tail q zero r t h = absurd (
      omega (
        arith,
        ap length (frame_bytes e es tail r.0.1),
        length-append (put_le 4 (length e)) (e ++ (frames es ++ tail)),
        length-put_le 4 (length e),
      ))
  read_frames (e ∷ es) tail q (suc fuel) r t h =
      let rest = frames es ++ tail in
      let b = frame_bytes e es tail r.0.1 in
      let l = length-append (put_le 4 (length e)) (e ++ rest) in
      let k = length-put_le 4 (length e) in
      let ih =
        read_frames es tail q fuel r.1 t (omega (arith, ap length b, l, k, length-append e rest)) in
      rw b (
        segment_step fuel (put_le 4 (length e) ++ (e ++ rest)) (omega (arith, l, k))
        ∙ (header_step (read_segment lib fuel) (length e) (e ++ rest) r.0.1
            ∙ (batch_step (read_segment lib fuel) e rest r.0.0
                ∙ ap (then_read (read_batch lib e).0) ih)))

  -- A segment that batches were appended to reads back as their records, in order and without an error,
  -- and so does one whose last write was cut short after its header.
  pub read_segment-frames :
      (es : List Bytes) (tail : Bytes) (fuel : ℕ)
      → All IsReadable es
      → IsTorn tail
      → length (frames es ++ tail) ≤ fuel
      → read_segment lib fuel (frames es ++ tail) ≡ (records_of es, none)
  read_segment-frames es tail fuel r t h =
      read_frames es tail none fuel r (λ k l. torn_lem k tail t l) h

  short_lem :
      (tail : Bytes) (fuel : ℕ)
      → 1 ≤ length tail
      → length tail ≤ 3
      → length tail ≤ fuel
      → read_segment lib fuel tail ≡ ([], some ReadError.truncated_header)
  unfolding read_segment
  short_lem [] fuel lo hi h = absurd (omega (arith, lo))
  short_lem (b ∷ bs) zero lo hi h = absurd (omega (arith, h))
  short_lem (b ∷ bs) (suc fuel) lo hi h = ground (arith, hi)

  -- A segment whose last write was cut short within the header.
  pub read_segment-short :
      (es : List Bytes) (tail : Bytes) (fuel : ℕ)
      → All IsReadable es
      → 1 ≤ length tail
      → length tail ≤ 3
      → length (frames es ++ tail) ≤ fuel
      → read_segment lib fuel (frames es ++ tail) ≡ (records_of es, some ReadError.truncated_header)
  read_segment-short es tail fuel r lo hi h =
      read_frames es tail (some ReadError.truncated_header) fuel r (λ k l. short_lem tail k lo hi l)
        h
