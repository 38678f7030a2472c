-- ===== src/Tl/Int/RoundTrip.antt =====
-- int_.py: a number that is written is read back, at every width, signed or not.
use piltover.Base.{
  Bool, [], ap, arith, drop-append, false, length, some, sym, take, take-append, true, ℕ, ◌++◌, ◌-◌,
  ◌^◌, ◌∙◌, ◌≡◌,
}
use mathlib.Core.List.{append-nil}
use piltover.Base.Ints.{ℤ, pos, negsuc}
use piltover.Tl.Codec.{Bytes}
use piltover.Tl.LittleEndian.{from_le, length-to_le, from_le-to_le}
use piltover.Tl.Int.{Width, write, of_bits, read_bytes, read}

-- What is written has the width of the type.
length-write :
    (cls : Width) (v : ℤ) (signed : Bool) (bytes : Bytes)
    → write cls v signed ≡ some bytes
    → length bytes ≡ cls.size
unfolding write
length-write cls (pos n) true bytes h = ground (arith, length-to_le cls.size n)
length-write cls (negsuc n) true bytes h =
    ground (arith, length-to_le cls.size (256 ^ cls.size - 1 - n))
length-write cls (pos n) false bytes h = ground (arith, length-to_le cls.size n)
length-write cls (negsuc n) false bytes h = cc

bits-write :
    (cls : Width) (v : ℤ) (signed : Bool) (bytes : Bytes)
    → write cls v signed ≡ some bytes
    → of_bits cls.size (from_le bytes) signed ≡ v
unfolding write of_bits
bits-write cls (pos n) true bytes h = ground (arith, from_le-to_le cls.size n)
bits-write cls (negsuc n) true bytes h =
    ground (arith, from_le-to_le cls.size (256 ^ cls.size - 1 - n))
bits-write cls (pos n) false bytes h = ground (arith, from_le-to_le cls.size n)
bits-write cls (negsuc n) false bytes h = cc

take_all : (bytes : Bytes) (n : ℕ) → n ≡ length bytes → take n bytes ≡ bytes
take_all bytes n h = ap (take n) (sym (append-nil bytes)) ∙ take-append n bytes [] h

read_bytes-write :
    (cls : Width) (v : ℤ) (signed : Bool) (bytes : Bytes)
    → write cls v signed ≡ some bytes
    → read_bytes cls bytes signed ≡ some v
unfolding read_bytes
read_bytes-write cls v signed bytes h =
    let l = length-write cls v signed bytes h in
    let b = bits-write cls v signed bytes h in ground (arith, take_all bytes cls.size (sym l))

-- At every width and signedness, a value that can be written is read back from the bytes, whatever
-- follows them in the stream.
pub int_round_trip :
    (cls : Width) (signed : Bool) (v : ℤ) (bytes rest : Bytes)
    → write cls v signed ≡ some bytes
    → read cls signed (bytes ++ rest) ≡ some (v, rest)
unfolding read
int_round_trip cls signed v bytes rest h =
    let l = sym (length-write cls v signed bytes h) in
    ground (
      arith,
      take-append cls.size bytes rest l,
      drop-append cls.size bytes rest l,
      read_bytes-write cls v signed bytes h,
    )
