-- ===== src/Tl/Str.antt =====
-- piltover/tl/primitives/str_.py: length-prefixed, padded byte strings.
pub mod RoundTrip
use piltover.Base.{
  Option, [], drop, if◌then◌else◌, leb, length, ltb, none, replicate, some, take, ℕ, ◌%◌, ◌++◌, ◌+◌,
  ◌-◌, ◌==◌, ◌^◌, ◌∷◌,
}
use piltover.Tl.Codec.{Bytes, Reader, Codec}
use piltover.Tl.LittleEndian.{to_le, from_le}

-- The length prefix: `int.to_bytes(ln, 3, "little")` overflows from 2^24 on.
unfoldable pub prefix : ℕ → Option Bytes
prefix ln =
    if leb 254 ln then if ltb ln (2 ^ 24) then some (254 ∷ to_le 3 ln) else none else some (ln ∷ [])

-- `if padding: result += b"\x00" * (4 - padding)`
unfoldable pub pad : Bytes → Bytes
pad result =
    let padding = length result % 4 in
    if padding == 0 then result else result ++ replicate (4 - padding) 0

unfoldable pub write : Bytes → Option Bytes
write value = elim (prefix (length value)) [ none ↦ none | some p ↦ some (pad (p ++ value)) ]

-- The string of `count` bytes and the padding after it; `padding` is the length of the prefix.
unfoldable pub read_body : ℕ → ℕ → Bytes → Bytes × Bytes
read_body count padding stream =
    let result = take count stream in
    let left = drop count stream in
    let padding' = (padding + length result) % 4 in
    (result, (if padding' == 0 then left else drop (4 - padding') left))

-- `stream.read(1)[0]` fails on the empty stream.
unfoldable pub read : Reader Bytes
read [] = none
read (count ∷ stream) = some (
    if leb 254 count
    then read_body (from_le (take 3 stream)) 4 (drop 3 stream)
    else read_body count 1 stream)

abbrev pub codec : Codec Bytes
codec = record { write = write; read = read }
