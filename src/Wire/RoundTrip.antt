-- ===== src/Wire/RoundTrip.antt =====
-- coordinator/internal/wire/frame.go: ReadFrame on what WriteFrame wrote, and on any stream.
use native.Mathlib.Nat.{div-add-mod, mod-lt}
use mathlib.Core.List.{append_assoc}
use drsync.Prelude.{
  ℕ, zero, suc, ◌+◌, ◌*◌, ◌/◌, ◌%◌, ◌^◌, ◌≡◌, ◌≤◌, ◌<◌, refl, sym, ap, ◌∙◌, true, false, [], ◌∷◌,
  ◌++◌, Option, none, some, Bytes, ltb, leb, if◌then◌else◌, length, take, drop, length-append,
  take-length_append, drop-length_append, length-take, le_of_leb, arith, Bool-cases, inl, inr,
}
use drsync.Wire.{
  max_frame_len, put_le, get_le, write_frame, read_full, Frame, read_payload, read_header,
  read_frame,
}

pub length-put_le : (n v : ℕ) → length (put_le n v) ≡ n
unfolding put_le
length-put_le zero v = refl
length-put_le (suc n) v = ap suc (length-put_le n (v / 256))

pub get_le-put_le : (n v : ℕ) → v < 256 ^ n → get_le (put_le n v) ≡ v
unfolding put_le get_le
get_le-put_le zero v h = omega (arith, h)
get_le-put_le (suc n) v h =
    let eq : 256 * (v / 256) + v % 256 ≡ v = div-add-mod v 256 in
    let lt : v % 256 < 256 = mod-lt v (omega arith) in
    omega (arith, eq, get_le-put_le n (v / 256) (omega (arith, eq, lt, h)))

read_full-append : (xs ys : Bytes) → read_full (length xs) (xs ++ ys) ≡ some (xs, ys)
read_full-append xs ys = rw (fits, take-length_append xs ys, drop-length_append xs ys) refl
  where
    fits : leb (length xs) (length (xs ++ ys)) ≡ true
    fits = ground (arith, length-append xs ys)

header_read :
    (t : ℕ) (a b payload more : Bytes)
    → length a ≡ 4
    → get_le a ≡ length payload
    → get_le b ≡ t
    → ltb max_frame_len (length payload) ≡ false
    → read_header (some (a ++ b, payload ++ more)) ≡ Frame.got t payload more
header_read t a b payload more la ga gb fits =
    let front : take 4 (a ++ b) ≡ a =
      ap (λ (n : ℕ). take n (a ++ b)) (sym la) ∙ take-length_append a b in
    let back : drop 4 (a ++ b) ≡ b =
      ap (λ (n : ℕ). drop n (a ++ b)) (sym la) ∙ drop-length_append a b in
    ap (λ (x : Bytes). read_number (get_le x) (get_le (drop 4 (a ++ b)))) front
    ∙ (ap (λ (x : Bytes). read_number (get_le a) (get_le x)) back
        ∙ (ap (λ (n : ℕ). read_number n (get_le b)) ga
            ∙ (ap (λ (n : ℕ). read_number (length payload) n) gb ∙ known)))
  where
    read_number : ℕ → ℕ → Frame
    read_number n u =
        if ltb max_frame_len n
        then Frame.too_long
        else read_payload u (read_full n (payload ++ more))

    known : read_number (length payload) t ≡ Frame.got t payload more
    known = rw fits (ap (read_payload t) (read_full-append payload more))

frame_read :
    (t : ℕ) (a b payload more : Bytes)
    → length a ≡ 4
    → length b ≡ 2
    → get_le a ≡ length payload
    → get_le b ≡ t
    → ltb max_frame_len (length payload) ≡ false
    → read_frame ((a ++ b ++ payload) ++ more) ≡ Frame.got t payload more
unfolding read_frame
frame_read t a b payload more la lb ga gb fits =
    ap (λ (x : Bytes). read_header (read_full 6 x)) split
    ∙ (ap (λ (n : ℕ). read_header (read_full n ((a ++ b) ++ (payload ++ more)))) six
        ∙ (ap read_header (read_full-append (a ++ b) (payload ++ more))
            ∙ header_read t a b payload more la ga gb fits))
  where
    split : (a ++ b ++ payload) ++ more ≡ (a ++ b) ++ (payload ++ more)
    split = append_assoc (a ++ b) payload more

    six : 6 ≡ length (a ++ b)
    six = omega (arith, la, lb, length-append a b)

-- ReadFrame gives back the type and the payload of a frame that WriteFrame wrote, whatever follows it
-- in the stream, which it leaves unread.
pub read_frame-write_frame :
    (frame_type : ℕ) (payload bs more : Bytes)
    → frame_type < 65536
    → write_frame frame_type payload ≡ some bs
    → read_frame (bs ++ more) ≡ Frame.got frame_type payload more
unfolding write_frame read_frame
read_frame-write_frame t payload bs more h e =
    elim (Bool-cases (ltb max_frame_len (length payload))) [
      | inl long ↦ ground arith
      | inr fits ↦
          ap (λ (x : Bytes). read_frame (x ++ more)) (written fits)
          ∙ frame_read t (put_le 4 (length payload)) (put_le 2 (t % 65536)) payload more
              (length-put_le 4 (length payload)) (length-put_le 2 (t % 65536))
              (get_le-put_le 4 (length payload) (ground arith))
              (get_le-put_le 2 (t % 65536) (mod-lt t (omega arith)) ∙ omega (arith, h)) fits
    ]
  where
    written :
        ltb max_frame_len (length payload) ≡ false
        → bs ≡ put_le 4 (length payload) ++ put_le 2 (t % 65536) ++ payload
    written fits = ground arith

length-drop : (n : ℕ) (xs : Bytes) → n ≤ length xs → n + length (drop n xs) ≡ length xs
length-drop zero xs h = omega arith
length-drop (suc n) [] h = absurd (omega (arith, h))
length-drop (suc n) (x ∷ xs) h = omega (arith, length-drop n xs (omega (arith, h)))

read_full-length :
    (n : ℕ) (bs hd tl : Bytes)
    → read_full n bs ≡ some (hd, tl)
    → (length hd ≡ n) × (length bs ≡ n + length tl)
read_full-length n bs hd tl e = elim (Bool-cases (leb n (length bs))) [
  | inl t ↦ ground (arith, length-take n bs, length-drop n bs (le_of_leb n (length bs) t))
  | inr f ↦ ground arith
]

payload_bounds :
    (n u t : ℕ) (bs payload rest : Bytes) (o : Option (Bytes × Bytes))
    → read_full n bs ≡ o
    → read_payload u o ≡ Frame.got t payload rest
    → (length payload ≡ n) × (length bs ≡ n + length rest)
payload_bounds n u t bs payload rest none h e = cc
payload_bounds n u t bs payload rest (some (p, r)) h e = ground (arith, read_full-length n bs p r h)

header_bounds :
    (t : ℕ) (bs payload rest : Bytes) (o : Option (Bytes × Bytes))
    → read_full 6 bs ≡ o
    → read_header o ≡ Frame.got t payload rest
    → (length payload ≤ max_frame_len) × (length bs ≡ 6 + length payload + length rest)
header_bounds t bs payload rest none h e = cc
header_bounds t bs payload rest (some (hd, tl)) h e =
    elim (Bool-cases (ltb max_frame_len (get_le (take 4 hd)))) [
      | inl long ↦ absurd (long≢got long)
      | inr fits ↦
          let q : (length payload ≡ get_le (take 4 hd))
              × (length tl ≡ get_le (take 4 hd) + length rest) =
            payload_bounds (get_le (take 4 hd)) (get_le (drop 4 hd)) t tl payload rest
              (read_full (get_le (take 4 hd)) tl) refl (accepted fits) in
          let r : (length hd ≡ 6) × (length bs ≡ 6 + length tl) = read_full-length 6 bs hd tl h in
          (ground (arith, q, fits), omega (arith, q.0, q.1, r.1))
    ]
  where
    long≢got : ltb max_frame_len (get_le (take 4 hd)) ≡ true → ⊥
    long≢got l = too_long≢got (sym (rw l refl) ∙ e)
      where
        too_long≢got : Frame.too_long ≡ Frame.got t payload rest → ⊥
        too_long≢got x = cc

    accepted :
        ltb max_frame_len (get_le (take 4 hd)) ≡ false
        → read_payload (get_le (drop 4 hd)) (read_full (get_le (take 4 hd)) tl)
          ≡ Frame.got t payload rest
    accepted f = ground (arith, e)

-- A frame that is accepted is within the limit, and it and its header are all that was taken off the
-- stream.
pub read_frame_bounds :
    (bs payload rest : Bytes) (t : ℕ)
    → read_frame bs ≡ Frame.got t payload rest
    → (length payload ≤ max_frame_len) × (length bs ≡ 6 + length payload + length rest)
unfolding read_frame
read_frame_bounds bs payload rest t e = header_bounds t bs payload rest (read_full 6 bs) refl e
