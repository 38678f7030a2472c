-- ===== src/Tl/Int.antt =====
-- piltover/tl/primitives/int_.py: `Int` (32 bits), `Long` (64 bits), `Int128` and `Int256`.
pub mod RoundTrip
use piltover.Base.{
  Bool, Option, drop, false, if◌then◌else◌, length, ltb, none, some, take, true, ℕ, ◌-◌, ◌/◌, ◌==◌,
  ◌^◌,
}
use piltover.Base.Ints.{ℤ, pos, negsuc}
use piltover.Tl.Codec.{Bytes, Reader, Codec}
use piltover.Tl.LittleEndian.{to_le, from_le}

-- The class attributes of the four classes: `SIZE = BIT_SIZE // 8`, and whether `STRUCT_FMT_I` and
-- `STRUCT_FMT_U` are there.
pub record Width : Type 0 where
  pub size : ℕ
  pub has_struct : Bool

abbrev pub int : Width
int = record { size = 32 / 8; has_struct = true }

abbrev pub long : Width
long = record { size = 64 / 8; has_struct = true }

abbrev pub int128 : Width
int128 = record { size = 128 / 8; has_struct = false }

abbrev int256 : Width
int256 = record { size = 256 / 8; has_struct = false }

-- `value.to_bytes(cls.SIZE, "little", signed=signed)`; `none` is `OverflowError`.
unfoldable pub write_signed : ℕ → ℤ → Option Bytes
write_signed size (pos n) = if ltb n (256 ^ size / 2) then some (to_le size n) else none
write_signed size (negsuc n) =
    if ltb n (256 ^ size / 2) then some (to_le size (256 ^ size - 1 - n)) else none

unfoldable write_unsigned : ℕ → ℤ → Option Bytes
write_unsigned size (pos n) = if ltb n (256 ^ size) then some (to_le size n) else none
write_unsigned size (negsuc n) = none

unfoldable pub write : Width → ℤ → Bool → Option Bytes
unfolding write_signed write_unsigned
write cls value true = write_signed cls.size value
write cls value false = write_unsigned cls.size value

-- Two's complement over as many bytes as there are.
unfoldable pub of_bits : ℕ → ℕ → Bool → ℤ
of_bits size u true = if ltb u (256 ^ size / 2) then pos u else negsuc (256 ^ size - 1 - u)
of_bits size u false = pos u

-- `Int.read_bytes` and `Long.read_bytes`: `struct.unpack` wants exactly `SIZE` bytes.
unpack : Width → Bytes → Bool → Option ℤ
unpack cls bytes signed =
    if length bytes == cls.size then some (of_bits cls.size (from_le bytes) signed) else none

-- `BigInt.read_bytes`: `int.from_bytes(data[:cls.SIZE])` takes whatever is there.
from_bytes : Width → Bytes → Bool → Option ℤ
from_bytes cls bytes signed =
    let chunk = take cls.size bytes in some (of_bits (length chunk) (from_le chunk) signed)

unfoldable pub read_bytes : Width → Bytes → Bool → Option ℤ
unfolding unpack from_bytes
read_bytes cls bytes signed =
    if cls.has_struct then unpack cls bytes signed else from_bytes cls bytes signed

-- `cls.read_bytes(stream.read(cls.SIZE), signed)`
unfoldable pub read : Width → Bool → Reader ℤ
unfolding read_bytes
read cls signed stream = elim (read_bytes cls (take cls.size stream) signed) [
  | none ↦ none
  | some v ↦ some (v, drop cls.size stream)
]

abbrev pub codec : Width → Codec ℤ
codec cls = record { write = λ v. write cls v true; read = read cls true }
