-- ===== src/Tests/Tl.antt =====
-- Concrete inputs for the theorems on piltover/tl.
use piltover.Base.{[], refl, replicate, some, true, ◌++◌, ◌∷◌, ◌≡◌}
use piltover.Base.Ints.{ℤ, pos, negsuc}
use piltover.Tl.Codec.{Bytes, Codec, RoundTrips}
use piltover.Tl.Int
use piltover.Tl.Int.{long, int128}
use piltover.Tl.LittleEndian.{to_le}
use piltover.Tl.Int.RoundTrip.{int_round_trip}
use piltover.Tl.Str
use piltover.Tl.Str.RoundTrip.{str_round_trip}
use piltover.Tl.Vector
use piltover.Tl.Core.{write_counted, Message, RpcResult, FutureSalts}
use piltover.Tl.Core.Messages
use piltover.Tl.Core.Messages.{container_round_trip}

-- -2 in 16 bytes
abbrev minus_two : Bytes
minus_two = 254 ∷ replicate 15 255

int_round_trip_example : Int.read int128 true (minus_two ++ 7 ∷ []) ≡ some (negsuc 1, 7 ∷ [])
unfolding Int.write Int.write_signed to_le
int_round_trip_example = int_round_trip int128 true (negsuc 1) minus_two (7 ∷ []) refl

-- "hi": a length, the text and one byte of padding
abbrev hi : Bytes
hi = 2 ∷ 104 ∷ 105 ∷ 0 ∷ []

str_round_trip_example : Str.read (hi ++ 9 ∷ []) ≡ some (104 ∷ 105 ∷ [], 9 ∷ [])
unfolding Str.write Str.prefix Str.pad
str_round_trip_example = str_round_trip (104 ∷ 105 ∷ []) hi (9 ∷ []) refl

abbrev longs : Codec ℤ
longs = Int.codec long

longs-RoundTrips : RoundTrips longs
longs-RoundTrips = int_round_trip long true

-- A vector of one long, 5.
abbrev one_five : Bytes
one_five = 0x15 ∷ 0xc4 ∷ 0xb5 ∷ 0x1c ∷ 1 ∷ 0 ∷ 0 ∷ 0 ∷ 5 ∷ replicate 7 0

-- A message whose object is the long 5, number 4 and sequence number 1.
abbrev five : Message ℤ
five = record { message_id = pos 4; seq_no = pos 1; obj = pos 5 }

abbrev five_bytes : Bytes
five_bytes = 4 ∷ replicate 7 0 ++ 1 ∷ replicate 3 0 ++ 8 ∷ replicate 3 0 ++ 5 ∷ replicate 7 0

container_round_trip_example :
    Messages.deserialize_container longs ((1 ∷ replicate 3 0 ++ five_bytes) ++ [])
    ≡ some (five ∷ [], [])
unfolding Messages.serialize_container Messages.serialize write_counted Vector.write_elements
    Int.write Int.write_signed to_le
container_round_trip_example =
    container_round_trip longs longs-RoundTrips (five ∷ []) (1 ∷ replicate 3 0 ++ five_bytes) []
      refl

abbrev result : RpcResult ℤ
result = record { req_msg_id = pos 4; result = pos 5 }

abbrev result_bytes : Bytes
result_bytes = 4 ∷ replicate 7 0 ++ 5 ∷ replicate 7 0

abbrev salts : FutureSalts ℤ
salts = record { req_msg_id = pos 4; now = pos 6; salts = pos 5 ∷ [] }

abbrev salts_bytes : Bytes
salts_bytes = 4 ∷ replicate 7 0 ++ 6 ∷ replicate 3 0 ++ 1 ∷ replicate 3 0 ++ 5 ∷ replicate 7 0
