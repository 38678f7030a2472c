-- ===== src/Tl/LittleEndian.antt =====
-- `int.to_bytes(size, "little")` and `int.from_bytes(data, "little")` on numbers that are not
-- negative.
use native.Mathlib.Nat.{pow-suc}
use piltover.Base.{
  [], ap, arith, length, refl, suc, zero, ℕ, ◌%◌, ◌*◌, ◌+◌, ◌/◌, ◌<◌, ◌^◌, ◌∷◌, ◌≡◌,
}
use piltover.Tl.Codec.{Bytes, AreBytes}

unfoldable pub to_le : ℕ → ℕ → Bytes
to_le zero v = []
to_le (suc size) v = (v % 256) ∷ to_le size (v / 256)

unfoldable pub from_le : Bytes → ℕ
from_le [] = 0
from_le (b ∷ bs) = b + 256 * from_le bs

pub length-to_le : (size v : ℕ) → length (to_le size v) ≡ size
unfolding to_le
length-to_le zero v = refl
length-to_le (suc size) v = ap suc (length-to_le size (v / 256))

to_le-AreBytes : (size v : ℕ) → AreBytes (to_le size v)
unfolding to_le
to_le-AreBytes zero v = tt
to_le-AreBytes (suc size) v = (omega arith, to_le-AreBytes size (v / 256))

pub from_le-to_le : (size v : ℕ) → v < 256 ^ size → from_le (to_le size v) ≡ v
unfolding to_le from_le
from_le-to_le zero v h = omega arith
from_le-to_le (suc size) v h =
    let fits : v / 256 < 256 ^ size = omega (arith, pow-suc 256 size) in
    omega (arith, from_le-to_le size (v / 256) fits)

from_le-lt : (bs : Bytes) → AreBytes bs → from_le bs < 256 ^ length bs
unfolding from_le
from_le-lt [] h = omega arith
from_le-lt (b ∷ bs) h = omega (arith, pow-suc 256 (length bs), from_le-lt bs h.1, h.0)

to_le-from_le : (bs : Bytes) → AreBytes bs → to_le (length bs) (from_le bs) ≡ bs
unfolding to_le from_le
to_le-from_le [] h = refl
to_le-from_le (b ∷ bs) (lt, h) =
    let low : (b + 256 * from_le bs) % 256 ≡ b = omega arith in
    let high : (b + 256 * from_le bs) / 256 ≡ from_le bs = omega arith in
    rw (low, high) (ap (◌∷◌ b) (to_le-from_le bs h))
