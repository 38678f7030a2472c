-- ===== src/Tl/Str/RoundTrip.antt =====
-- str_.py: strings are read back, and are written in whole words of four bytes.
use piltover.Base.{
  Bool-cases, Option-cases, [], ap, arith, drop-append, false, if◌then◌else◌, inl, inr, leb, length,
  length-append, length-replicate, refl, replicate, some, sym, take-append, ℕ, ◌%◌, ◌++◌, ◌+◌, ◌-◌,
  ◌<◌, ◌==◌, ◌^◌, ◌∷◌, ◌≡◌, ◌⊎◌,
}
use mathlib.Core.List.{append_assoc, append-nil}
use piltover.Tl.Codec.{Bytes}
use piltover.Tl.LittleEndian.{to_le, length-to_le, from_le-to_le}
use piltover.Tl.Str.{prefix, pad, write, read, read_body}

-- How many zeros follow `n` bytes.
pad_size : ℕ → ℕ
pad_size n = if n % 4 == 0 then 0 else 4 - n % 4

pad-eq-append : (r : Bytes) → pad r ≡ r ++ replicate (pad_size (length r)) 0
unfolding pad pad_size
pad-eq-append r = elim (Bool-cases (length r % 4 == 0)) [
  | inl e ↦ rw e (sym (append-nil r))
  | inr e ↦ rw e refl
]

-- A body is read up to the end of its padding.
read_body_lem :
    (k : ℕ) (value rest : Bytes)
    → read_body (length value) k (value ++ (replicate (pad_size (k + length value)) 0 ++ rest))
      ≡ (value, rest)
unfolding read_body pad_size
read_body_lem k value rest =
    let zeros : Bytes = replicate (pad_size (k + length value)) 0 in
    rw
      (
        take-append (length value) value (zeros ++ rest) refl,
        drop-append (length value) value (zeros ++ rest) refl,
      )
      (elim (Bool-cases ((k + length value) % 4 == 0)) [
        | inl e ↦ rw e refl
        | inr e ↦ rw e (
            ap (λ s. (value, s))
              (drop-append {A = ℕ} (4 - (k + length value) % 4)
                (replicate (4 - (k + length value) % 4) 0) rest
                (sym (length-replicate {A = ℕ} (4 - (k + length value) % 4) 0))))
      ])

prefix-cases :
    (ln : ℕ) (p : Bytes)
    → prefix ln ≡ some p
    → ((p ≡ ln ∷ []) × (leb 254 ln ≡ false)) ⊎ ((p ≡ 254 ∷ to_le 3 ln) × (ln < 2 ^ 24))
unfolding prefix
prefix-cases ln p h = ground arith

regroup :
    (p value zeros rest : Bytes) → ((p ++ value) ++ zeros) ++ rest ≡ p ++ (value ++ (zeros ++ rest))
regroup p value zeros rest = simp append_assoc

read-short :
    (value rest : Bytes)
    → leb 254 (length value) ≡ false
    → read (length value ∷ value ++ (replicate (pad_size (1 + length value)) 0 ++ rest))
      ≡ some (value, rest)
unfolding read
read-short value rest h = rw (h, read_body_lem 1 value rest) refl

read-long :
    (value rest : Bytes)
    → length value < 2 ^ 24
    → read (
        254
        ∷ (to_le 3 (length value)
            ++ (value ++ (replicate (pad_size (4 + length value)) 0 ++ rest))))
      ≡ some (value, rest)
unfolding read
read-long value rest h =
    let body = value ++ (replicate (pad_size (4 + length value)) 0 ++ rest) in
    let n = length value in
    rw
      (
        take-append 3 (to_le 3 n) body (sym (length-to_le 3 n)),
        drop-append 3 (to_le 3 n) body (sym (length-to_le 3 n)),
        from_le-to_le 3 n h,
        read_body_lem 4 value rest,
      )
      refl

write-cases :
    (value bytes : Bytes)
    → write value ≡ some bytes
    → (p : Bytes) × (prefix (length value) ≡ some p) × (bytes ≡ pad (p ++ value))
unfolding write
write-cases value bytes h = elim (Option-cases (prefix (length value))) [
  | inl e ↦ ground arith
  | inr (p, e) ↦ (p, e, ground arith)
]

-- A byte string that can be written is read back from the bytes, whatever follows them: the read
-- stops at the end of the padding.
pub str_round_trip :
    (value bytes rest : Bytes)
    → write value ≡ some bytes
    → read (bytes ++ rest) ≡ some (value, rest)
str_round_trip value bytes rest h =
    let (p, e, f) = write-cases value bytes h in
    rw (f, pad-eq-append (p ++ value), length-append p value, regroup p value _ rest)
      (elim (prefix-cases (length value) p e) [
        | inl (q, short) ↦ rw q (read-short value rest short)
        | inr (q, fits) ↦ rw (q, length-to_le 3 (length value)) (read-long value rest fits)
      ])

length-pad : (r : Bytes) → length (pad r) % 4 ≡ 0
length-pad r =
    rw (pad-eq-append r, length-append r _, length-replicate {A = ℕ} (pad_size (length r)) 0)
      (unfold pad_size in ground arith)

prefix_total : (ln : ℕ) → ln < 2 ^ 24 → (p : Bytes) × (prefix ln ≡ some p)
unfolding prefix
prefix_total ln h = elim (Bool-cases (leb 254 ln)) [
  | inl e ↦ (254 ∷ to_le 3 ln, ground arith)
  | inr e ↦ (ln ∷ [], ground arith)
]

-- Every byte string shorter than 2^24 bytes can be written, and what is written fills whole words of
-- four bytes.
write_words :
    (value : Bytes)
    → length value < 2 ^ 24
    → (bytes : Bytes) × (write value ≡ some bytes) × (length bytes % 4 ≡ 0)
unfolding write
write_words value h =
    let (p, e) = prefix_total (length value) h in
    (pad (p ++ value), ground arith, length-pad (p ++ value))
