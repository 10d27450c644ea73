-- ===== src/Journal/Total.antt =====
-- coordinator/internal/journal/reader.go: the loops of the reader and their fuel.
use drsync.Prelude.{
  ℕ, zero, suc, ◌+◌, ◌-◌, ◌≡◌, ◌≢◌, ◌≤◌, refl, List, [], ◌∷◌, Option, none, some, Bytes, ltb, leb,
  ◌^◌, map, length, length-drop, take, drop, arith, Bool-cases, inl, inr,
}
use drsync.Wire.{get_le}
use drsync.Journal.Names.{sort_segments}
use drsync.Journal.{
  JournalLib, JournalRecord, Read, ReadError, and_read, for_each_record, take_record, add_record,
  read_batch, decompress, records_in, take_header, read_segment, read_in_order, read_records,
}

-- The reading did not run out of fuel.
abbrev pub Ended : Read → Type 0
Ended q = q.1 ≢ some ReadError.out_of_fuel

and_read-Ended : (q more : Read) → Ended q → Ended more → Ended (and_read q more)
and_read-Ended (rs, none) (ms, e) p h = h
and_read-Ended (rs, some e) more p h = p

module _ (lib : JournalLib) where
  add_record-Ended : (o : Option JournalRecord) (q : Read) → Ended q → Ended (add_record lib o q)
  add_record-Ended none q h = λ e. cc
  add_record-Ended (some r) (rs, e) h = h

  module _ (advances : (bs : Bytes) (l n : ℕ) → lib.uvarint bs ≡ some (l, n) → 1 ≤ n) where
    take_record-Ended :
        (more : Bytes → Read) (off : ℕ) (raw : Bytes) (o : Option (ℕ × ℕ))
        → ((l n : ℕ) → o ≡ some (l, n) → Ended (more (drop (n + l) raw)))
        → Ended (take_record lib more off raw o)
    take_record-Ended more off raw none f = λ e. cc
    take_record-Ended more off raw (some (l, n)) f =
        elim (Bool-cases (leb (2 ^ 63) (off + n + l))) [
          | inl t ↦ rw t (λ e. cc)
          | inr g ↦ elim (Bool-cases (ltb (length raw) (n + l))) [
            | inl t ↦ rw (g, t) (λ e. cc)
            | inr k ↦
                rw (g, k)
                  (add_record-Ended (lib.unmarshal_record (take l (drop n raw)))
                    (more (drop (n + l) raw)) (f l n refl))
          ]
        ]

    for_each_record-Ended :
        (size fuel : ℕ) (raw : Bytes)
        → length raw ≤ fuel
        → Ended (for_each_record lib size fuel raw)
    unfolding for_each_record
    for_each_record-Ended size fuel [] h = λ e. cc
    for_each_record-Ended size zero (b ∷ bs) h = absurd (omega (arith, h))
    for_each_record-Ended size (suc fuel) (b ∷ bs) h =
        take_record-Ended (for_each_record lib size fuel) (size - length (b ∷ bs)) (b ∷ bs)
          (lib.uvarint (b ∷ bs))
          (λ l n e.
            for_each_record-Ended size fuel (drop (n + l) (b ∷ bs))
              (omega (arith, h, length-drop (n + l) (b ∷ bs), advances (b ∷ bs) l n e)))

    read_batch-Ended : (env : Bytes) → Ended (read_batch lib env)
    unfolding read_batch
    read_batch-Ended env = by_envelope (lib.unmarshal_batch env)
      where
        by_raw : (o : Option Bytes) → Ended (records_in lib o)
        by_raw none = λ e. cc
        by_raw (some raw) = for_each_record-Ended (length raw) (length raw) raw (omega arith)

        by_envelope : (o : Option Bytes) → Ended (decompress lib o)
        by_envelope none = λ e. cc
        by_envelope (some z) = by_raw (lib.decode_all z)

    take_header-Ended :
        (more : Bytes → Read) (bs : Bytes)
        → ((n : ℕ) → 4 ≤ length bs → Ended (more (drop n (drop 4 bs))))
        → Ended (take_header lib more bs)
    take_header-Ended more bs f = elim (Bool-cases (ltb (length bs) 4)) [
      | inl t ↦ rw t (λ e. cc)
      | inr g ↦ elim (Bool-cases (ltb (length (drop 4 bs)) (get_le (take 4 bs)))) [
        | inl t ↦ rw (g, t) (λ e. cc)
        | inr k ↦
            rw (g, k)
              (and_read-Ended (read_batch lib (take (get_le (take 4 bs)) (drop 4 bs)))
                (more (drop (get_le (take 4 bs)) (drop 4 bs)))
                (read_batch-Ended (take (get_le (take 4 bs)) (drop 4 bs)))
                (f (get_le (take 4 bs)) (ground (arith, g))))
      ]
    ]

    read_segment-Ended :
        (fuel : ℕ) (bs : Bytes) → length bs ≤ fuel → Ended (read_segment lib fuel bs)
    unfolding read_segment
    read_segment-Ended fuel [] h = λ e. cc
    read_segment-Ended zero (b ∷ bs) h = absurd (omega (arith, h))
    read_segment-Ended (suc fuel) (b ∷ bs) h =
        take_header-Ended (read_segment lib fuel) (b ∷ bs) (λ n four.
          read_segment-Ended fuel (drop n (drop 4 (b ∷ bs)))
            (omega (arith, h, four, length-drop n (drop 4 (b ∷ bs)), length-drop 4 (b ∷ bs))))

    read_in_order-Ended : (segs : List Bytes) → Ended (read_in_order lib segs)
    unfolding read_in_order
    read_in_order-Ended [] = λ e. cc
    read_in_order-Ended (seg ∷ segs) =
        and_read-Ended (read_segment lib (length seg) seg) (read_in_order lib segs)
          (read_segment-Ended (length seg) seg (omega arith)) (read_in_order-Ended segs)

    -- ReadRecords comes to an end on whatever bytes the segments hold, damaged or not, with the records, an
    -- error or a panic: the fuel of its two loops, the number of bytes they have before them, is enough,
    -- where Uvarint takes at least a byte.
    pub read_records-Ended : (segs : List (ℕ × Bytes)) → Ended (read_records lib segs)
    unfolding read_records
    read_records-Ended segs =
        read_in_order-Ended (map (λ (f : ℕ × Bytes). f.1) (sort_segments segs))
