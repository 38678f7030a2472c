-- ===== src/Tl/Vector/RoundTrip.antt =====
-- vector.py: a vector of any type that reads back what it writes does so too.
use piltover.Base.{List, Option-cases, [], arith, inl, inr, length, some, true, ℕ, ◌++◌, ◌∷◌, ◌≡◌}
use mathlib.Core.List.{append_assoc}
use piltover.Base.Ints.{pos}
use piltover.Tl.Codec.{Bytes, Codec, RoundTrips}
use piltover.Tl.Int
use piltover.Tl.Int.{int}
use piltover.Tl.Int.RoundTrip.{int_round_trip}
use piltover.Tl.Vector.{
  read_header, check_constructor, header, vector_id, read_elements, write_elements, read, write,
}

read_header-header :
    (count : ℕ) (bytes rest : Bytes)
    → header count ≡ some bytes
    → read_header (bytes ++ rest) ≡ some (pos count, rest)
unfolding read_header check_constructor header
read_header-header count bytes rest h = elim (Option-cases (Int.write int (pos count) true)) [
  | inl e ↦ ground arith
  | inr (n, e) ↦
      let eq : bytes ≡ vector_id ++ n = ground arith in
      rw eq (int_round_trip int true (pos count) n rest e)
]

module _ {A : Type 0} (element : Codec A) (good : RoundTrips element) where
  pub read_elements-write :
      (xs : List A) (bytes rest : Bytes)
      → write_elements element xs ≡ some bytes
      → read_elements element (length xs) (bytes ++ rest) ≡ some (xs, rest)
  unfolding write_elements read_elements
  read_elements-write [] bytes rest h = ground arith
  read_elements-write (x ∷ xs) bytes rest h = elim (Option-cases (element.write x)) [
    | inl e ↦ ground arith
    | inr (b, e) ↦ elim (Option-cases (write_elements element xs)) [
      | inl e' ↦ ground arith
      | inr (bs, e') ↦
          let eq : bytes ≡ b ++ bs = ground arith in
          rw (eq, append_assoc b bs rest)
            (ground (arith, good x b (bs ++ rest) e, read_elements-write xs bs rest e'))
    ]
  ]

  -- A vector that can be written is read back from the bytes, whatever follows them, if each element
  -- is.
  vector_round_trip :
      (xs : List A) (bytes rest : Bytes)
      → write element xs ≡ some bytes
      → read element (bytes ++ rest) ≡ some (xs, rest)
  unfolding read write
  vector_round_trip xs bytes rest h = elim (Option-cases (header (length xs))) [
    | inl e ↦ ground arith
    | inr (b, e) ↦ elim (Option-cases (write_elements element xs)) [
      | inl e' ↦ ground arith
      | inr (bs, e') ↦
          let eq : bytes ≡ b ++ bs = ground arith in
          rw (eq, append_assoc b bs rest)
            (ground (
              arith,
              read_header-header (length xs) b (bs ++ rest) e,
              read_elements-write xs bs rest e',
            ))
    ]
  ]
