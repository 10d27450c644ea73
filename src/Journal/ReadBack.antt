-- ===== src/Journal/ReadBack.antt =====
-- coordinator/internal/journal: Append and ReadRecords across the segments of a pass.
use mathlib.Core.List.{append_assoc, append-nil}
use drsync.Prelude.{
  ◌≤◌, ◌≡◌, refl, sym, ap, some, ◌∙◌, subst, List, [], ◌∷◌, ◌++◌, none, Bytes, leb, length, All,
  All-append, arith, Bool-cases, inl, inr, map,
}
use drsync.Journal.{
  JournalLib, Read, ReadError, then_read, and_read, read_segment, read_in_order, read_records,
  read_batch, frame, Segments, contents, files, append_batch, append_batches, segment_max_bytes,
}
use drsync.Journal.Names.{numbered, sort-numbered, contents-numbered}
use drsync.Journal.Kept.{frames, IsReadable, records_of, read_segment-frames, read_segment-short}

frames-append : (xs ys : List Bytes) → frames (xs ++ ys) ≡ frames xs ++ frames ys
frames-append [] ys = refl
frames-append (x ∷ xs) ys =
    ap (λ b. frame x ++ b) (frames-append xs ys)
    ∙ sym (append_assoc (frame x) (frames xs) (frames ys))

module _ (lib : JournalLib) where
  records_of-append :
      (xs ys : List Bytes) → records_of lib (xs ++ ys) ≡ records_of lib xs ++ records_of lib ys
  records_of-append [] ys = refl
  records_of-append (x ∷ xs) ys =
      ap (λ b. (read_batch lib x).0 ++ b) (records_of-append xs ys)
      ∙ sym (append_assoc (read_batch lib x).0 (records_of lib xs) (records_of lib ys))

  -- The batches of full segments, one after the other.
  abbrev pub join : List (List Bytes) → List Bytes
  join [] = []
  join (p ∷ ps) = p ++ join ps

  join-append : (ps : List (List Bytes)) (q : List Bytes) → join (ps ++ q ∷ []) ≡ join ps ++ q
  join-append [] q = append-nil q
  join-append (p ∷ ps) q = ap (λ b. p ++ b) (join-append ps q) ∙ sym (append_assoc p (join ps) q)

  -- The segments hold the batches, in order.
  record Holds (s : Segments) (es : List Bytes) : Type 0 where
    parts : List (List Bytes)
    last : List Bytes
    closed_parts : s.closed ≡ map frames parts
    current_last : s.current ≡ frames last
    in_order : join parts ++ last ≡ es
    readable : All (All (IsReadable lib)) parts
    last_readable : All (IsReadable lib) last

  segment-readable :
      (p : List Bytes)
      → All (IsReadable lib) p
      → read_segment lib (length (frames p)) (frames p) ≡ (records_of lib p, none)
  segment-readable p r =
      subst (λ b. read_segment lib (length b) b ≡ (records_of lib p, none)) (append-nil (frames p))
        (read_segment-frames lib p [] (length (frames p ++ [])) r (inl refl) (omega arith))

  read_parts :
      (ps : List (List Bytes))
      → All (All (IsReadable lib)) ps
      → read_in_order lib (map frames ps) ≡ (records_of lib (join ps), none)
  unfolding read_in_order
  read_parts [] r = refl
  read_parts (p ∷ ps) r =
      rw (segment-readable p r.0, read_parts ps r.1)
        (ap (λ b. (b, none)) (sym (records_of-append p (join ps))))

  map-append :
      (ps : List (List Bytes)) (q : List Bytes)
      → map frames (ps ++ q ∷ []) ≡ map frames ps ++ frames q ∷ []
  map-append [] q = refl
  map-append (p ∷ ps) q = ap (λ b. frames p ∷ b) (map-append ps q)

  append_batch-Holds :
      (e : Bytes) (s : Segments) (es : List Bytes)
      → IsReadable lib e
      → Holds s es
      → Holds (append_batch e s) (es ++ e ∷ [])
  unfolding append_batch
  append_batch-Holds e s es r h = elim (Bool-cases (leb segment_max_bytes (length s.current))) [
    | inl t ↦ rw t (record {
      parts = h.parts ++ h.last ∷ [];
      last = e ∷ [];
      closed_parts = rw (h.closed_parts, h.current_last) (sym (map-append h.parts h.last));
      current_last = sym (append-nil (frame e));
      in_order = ap (λ b. b ++ e ∷ []) (join-append h.parts h.last ∙ h.in_order);
      readable =
          All-append (All (IsReadable lib)) h.parts (h.last ∷ []) h.readable (h.last_readable, tt);
      last_readable = (r, tt);
    })
    | inr f ↦ rw f (record {
      parts = h.parts;
      last = h.last ++ e ∷ [];
      closed_parts = h.closed_parts;
      current_last =
          ap (λ b. b ++ frame e) h.current_last
          ∙ (ap (λ b. frames h.last ++ b) (sym (append-nil (frame e)))
              ∙ sym (frames-append h.last (e ∷ [])));
      in_order =
          sym (append_assoc (join h.parts) h.last (e ∷ [])) ∙ ap (λ b. b ++ e ∷ []) h.in_order;
      readable = h.readable;
      last_readable = All-append (IsReadable lib) h.last (e ∷ []) h.last_readable (r, tt);
    })
  ]

  append_batches-Holds :
      (envs : List Bytes) (s : Segments) (es : List Bytes)
      → All (IsReadable lib) envs
      → Holds s es
      → Holds (append_batches envs s) (es ++ envs)
  unfolding append_batches
  append_batches-Holds [] s es r h = subst (Holds s) (sym (append-nil es)) h
  append_batches-Holds (e ∷ envs) s es r h =
      subst (Holds (append_batches envs (append_batch e s))) (append_assoc es (e ∷ []) envs) (
        append_batches-Holds envs (append_batch e s) (es ++ e ∷ []) r.1
          (append_batch-Holds e s es r.0 h))

  read_in_order-Holds :
      (s : Segments) (es : List Bytes)
      → Holds s es
      → read_in_order lib (contents s) ≡ (records_of lib es, none)
  read_in_order-Holds s es h =
      rw (h.closed_parts, h.current_last)
        (ap (read_in_order lib) (sym (map-append h.parts h.last))
          ∙ (read_parts (h.parts ++ h.last ∷ []) (
                All-append (All (IsReadable lib)) h.parts (h.last ∷ []) h.readable
                  (h.last_readable, tt))
              ∙ ap (λ b. (records_of lib b, none)) (join-append h.parts h.last ∙ h.in_order)))

  -- Up to a million segments are read in the order of their numbers.
  read_records-numbered :
      (segs : List Bytes)
      → length segs ≤ 1000000
      → read_records lib (numbered 0 segs) ≡ read_in_order lib segs
  unfolding read_records
  read_records-numbered segs h =
      rw (sort-numbered 0 segs (omega (arith, h)), contents-numbered 0 segs) refl

  -- If batches, each of which reads without an error and is below 4 GiB, are appended to a pass that has
  -- no segments yet, and fill at most a million segments, then ReadRecords gives the records of all of
  -- them, in the order in which they were appended, and no error.
  pub read_records-append_batches :
      (envs : List Bytes)
      → All (IsReadable lib) envs
      → length (contents (append_batches envs (record { closed = []; current = [] }))) ≤ 1000000
      → read_records lib (files (append_batches envs (record { closed = []; current = [] })))
        ≡ (records_of lib envs, none)
  read_records-append_batches envs r h =
      read_records-numbered (contents (append_batches envs (record { closed = []; current = [] })))
        h
      ∙ read_in_order-Holds (append_batches envs (record { closed = []; current = [] })) envs (
          append_batches-Holds envs (record { closed = []; current = [] }) [] r
            (record {
              parts = [];
              last = [];
              closed_parts = refl;
              current_last = refl;
              in_order = refl;
              readable = tt;
              last_readable = tt;
            }))

  read_in_order-and :
      (ps : List (List Bytes)) (last : Bytes)
      → All (All (IsReadable lib)) ps
      → read_in_order lib (map frames ps ++ last ∷ [])
        ≡ then_read (records_of lib (join ps)) (read_segment lib (length last) last)
  unfolding read_in_order
  read_in_order-and [] last r = by_last (read_segment lib (length last) last)
    where
      by_last : (q : Read) → and_read q ([], none) ≡ then_read [] q
      by_last (rs, none) = ap (λ x. (x, none)) (append-nil rs)
      by_last (rs, some e) = refl
  read_in_order-and (p ∷ ps) last r =
      rw (segment-readable p r.0, read_in_order-and ps last r.1, records_of-append p (join ps))
        (by_last (read_segment lib (length last) last))
    where
      by_last :
          (q : Read)
          → then_read (records_of lib p) (then_read (records_of lib (join ps)) q)
            ≡ then_read (records_of lib p ++ records_of lib (join ps)) q
      by_last (rs, e) =
          ap (λ x. (x, e)) (sym (append_assoc (records_of lib p) (records_of lib (join ps)) rs))

  -- If the last write to a pass was cut short within its header, after 1 to 3 bytes, then ReadRecords
  -- fails on the pass: it gives the records of the batches before, in the full segments and in the last
  -- one, and the error of a truncated header. The batches before read without an error and are below 4
  -- GiB, and there are at most a million segments.
  pub torn_header_fails :
      (ps : List (List Bytes)) (es : List Bytes) (tail : Bytes)
      → All (All (IsReadable lib)) ps
      → All (IsReadable lib) es
      → 1 ≤ length tail
      → length tail ≤ 3
      → length (map frames ps ++ (frames es ++ tail) ∷ []) ≤ 1000000
      → read_records lib (numbered 0 (map frames ps ++ (frames es ++ tail) ∷ []))
        ≡ (records_of lib (join ps) ++ records_of lib es, some ReadError.truncated_header)
  torn_header_fails ps es tail rp re lo hi h =
      rw
        (
          read_records-numbered (map frames ps ++ (frames es ++ tail) ∷ []) h,
          read_in_order-and ps (frames es ++ tail) rp,
          read_segment-short lib es tail (length (frames es ++ tail)) re lo hi (omega arith),
        )
        refl
