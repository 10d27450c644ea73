-- ===== src/Examples/JournalRuns.antt =====
-- A journal of two batches of one record each: a record is a length byte and as many bytes of path.
use drsync.Prelude.{
  ℕ, ◌≡◌, refl, List, [], ◌∷◌, ◌++◌, Option, none, some, Bytes, bytes_eq, arith, ◌≤◌, inr,
}
use drsync.Wire.{put_le}
use drsync.Journal.{
  JournalLib, JournalRecord, ReadError, for_each_record, read_batch, read_records, frame, files,
  append_batch, append_batches, is_seen, fresh_records,
}
use drsync.Journal.Names.{numbered}
use drsync.Journal.Kept.{frames, records_of}
use drsync.Journal.ReadBack.{read_records-append_batches, torn_header_fails}
use drsync.Journal.Total.{Ended, read_records-Ended}
use drsync.Journal.Dedup.{fresh_records_again}

abbrev first_byte : Bytes → Option (ℕ × ℕ)
first_byte [] = none
first_byte (b ∷ bs) = some (b, 1)

abbrev plain : JournalLib
plain = record {
  unmarshal_batch = λ b. some b;
  decode_all = λ b. some b;
  uvarint = first_byte;
  unmarshal_record = λ b. some (record { type_no = 1; rel_path = b });
}

abbrev envelopes : List Bytes
envelopes = (1 ∷ 97 ∷ []) ∷ (2 ∷ 98 ∷ 99 ∷ []) ∷ []

read_records-append_batches_example :
    read_records plain (files (append_batches envelopes (record { closed = []; current = [] })))
    ≡ (records_of plain envelopes, none)
unfolding read_batch for_each_record append_batches append_batch frame put_le
read_records-append_batches_example =
    read_records-append_batches plain envelopes ((refl, omega arith), ((refl, omega arith), tt))
      (omega arith)

torn_header_fails_example :
    read_records plain
      (numbered 0 ((frames envelopes ++ []) ∷ (frames envelopes ++ 5 ∷ 0 ∷ []) ∷ []))
    ≡ (records_of plain (envelopes ++ envelopes), some ReadError.truncated_header)
unfolding read_batch for_each_record frame put_le
torn_header_fails_example =
    torn_header_fails plain (envelopes ∷ []) envelopes (5 ∷ 0 ∷ [])
      (((refl, omega arith), ((refl, omega arith), tt)), tt)
      ((refl, omega arith), ((refl, omega arith), tt)) (omega arith) (omega arith) (omega arith)

first_byte_advances : (bs : Bytes) (l n : ℕ) → first_byte bs ≡ some (l, n) → 1 ≤ n
first_byte_advances [] l n e = cc
first_byte_advances (b ∷ bs) l n e = ground arith

read_records-Ended_example : Ended (read_records plain ((0, 3 ∷ 0 ∷ 0 ∷ 0 ∷ 9 ∷ 1 ∷ []) ∷ []))
read_records-Ended_example =
    read_records-Ended plain first_byte_advances ((0, 3 ∷ 0 ∷ 0 ∷ 0 ∷ 9 ∷ 1 ∷ []) ∷ [])

abbrev record_a : JournalRecord
record_a = record { type_no = 1; rel_path = 97 ∷ [] }

fresh_records_again_example :
    fresh_records [] (record_a ∷ [] ++ record_a ∷ []) ≡ fresh_records [] (record_a ∷ [])
unfolding is_seen bytes_eq
fresh_records_again_example = fresh_records_again [] (record_a ∷ []) (record_a ∷ []) (inr refl, tt)
