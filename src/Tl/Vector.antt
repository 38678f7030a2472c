-- ===== src/Tl/Vector.antt =====
-- piltover/tl/primitives/vector.py: `_Vector`, whose elements are read and written one by one, and
-- the header that all vectors share.
pub mod RoundTrip
use piltover.Base.{
  Bool, List, Option, [], drop, false, if◌then◌else◌, length, none, some, suc, take, true, zero, ℕ,
  ◌&&◌, ◌++◌, ◌==◌, ◌∷◌,
}
use piltover.Base.Ints.{ℤ, pos, negsuc}
use piltover.Tl.Codec.{Bytes, Reader, Codec}
use piltover.Tl.Int
use piltover.Tl.Int.{int}

-- `primitives.VECTOR`
abbrev pub vector_id : Bytes
vector_id = 0x15 ∷ 0xc4 ∷ 0xb5 ∷ 0x1c ∷ []

abbrev pub same_bytes : Bytes → Bytes → Bool
same_bytes [] [] = true
same_bytes (a ∷ as') (b ∷ bs) = a == b && same_bytes as' bs
same_bytes _ _ = false

-- `InvalidConstructorException`, as every exception, is `none`.
unfoldable pub check_constructor : Reader (Unit {0})
check_constructor stream =
    if same_bytes (take 4 stream) vector_id then some (tt, drop 4 stream) else none

unfoldable pub read_header : Reader ℤ
unfolding check_constructor
read_header stream = elim (check_constructor stream) [
  | none ↦ none
  | some (_, left) ↦ Int.read int true left
]

unfoldable pub header : ℕ → Option Bytes
header count = elim (Int.write int (pos count) true) [
  | none ↦ none
  | some n ↦ some (vector_id ++ n)
]

module _ {A : Type 0} (element : Codec A) where
  -- `for _ in range(count)`
  pub read_elements : ℕ → Reader (List A)
  read_elements zero stream = some ([], stream)
  read_elements (suc n) stream = elim (element.read stream) [
    | none ↦ none
    | some (x, left) ↦ elim (read_elements n left) [
      | none ↦ none
      | some (xs, left') ↦ some (x ∷ xs, left')
    ]
  ]

  -- `range` of a negative count is empty.
  unfoldable pub read : Reader (List A)
  unfolding read_elements read_header
  read stream = elim (read_header stream) [
    | none ↦ none
    | some (pos n, left) ↦ read_elements n left
    | some (negsuc n, left) ↦ some ([], left)
  ]

  unfoldable pub write_elements : List A → Option Bytes
  write_elements [] = some []
  write_elements (x ∷ xs) = elim (element.write x) [
    | none ↦ none
    | some b ↦ elim (write_elements xs) [ none ↦ none | some bs ↦ some (b ++ bs) ]
  ]

  unfoldable pub write : List A → Option Bytes
  unfolding write_elements header
  write xs = elim (header (length xs)) [
    | none ↦ none
    | some h ↦ elim (write_elements xs) [ none ↦ none | some bs ↦ some (h ++ bs) ]
  ]

  abbrev pub codec : Codec (List A)
  codec = record { write = write; read = read }
