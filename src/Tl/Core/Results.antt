-- ===== src/Tl/Core/Results.antt =====
-- core_types.py: `RpcResult` and `FutureSalts`.
use piltover.Base.{Option, arith, some, true, ◌++◌, ◌≡◌}
use mathlib.Core.List.{append_assoc}
use piltover.Tl.Codec.{Bytes, Reader, Codec, RoundTrips}
use piltover.Tl.Int
use piltover.Tl.Int.{int, long}
use piltover.Tl.Int.RoundTrip.{int_round_trip}
use piltover.Tl.Core.{
  ◌>>=◌, RpcResult, FutureSalts, bind-some, read_counted, write_counted, read_counted-write,
}

module _ {Obj : Type 0} (tl_object : Codec Obj) where
  unfoldable deserialize_result : Reader (RpcResult Obj)
  deserialize_result stream = do
    (req_msg_id, left) ← Int.read long true stream
    (result, left') ← tl_object.read left
    some (record { req_msg_id = req_msg_id; result = result }, left')

  unfoldable serialize_result : RpcResult Obj → Option Bytes
  serialize_result r = do
    req_msg_id ← Int.write long r.req_msg_id true
    result ← tl_object.write r.result
    some (req_msg_id ++ result)

module _ {Salt : Type 0} (future_salt : Codec Salt) where
  unfoldable deserialize_salts : Reader (FutureSalts Salt)
  deserialize_salts stream = do
    (req_msg_id, left) ← Int.read long true stream
    (now, left') ← Int.read int true left
    (salts, left'') ← read_counted future_salt left'
    some (record { req_msg_id = req_msg_id; now = now; salts = salts }, left'')

  unfoldable serialize_salts : FutureSalts Salt → Option Bytes
  serialize_salts f = do
    req_msg_id ← Int.write long f.req_msg_id true
    now ← Int.write int f.now true
    salts ← write_counted future_salt f.salts
    some (req_msg_id ++ (now ++ salts))

module _ {Obj : Type 0} (tl_object : Codec Obj) (good : RoundTrips tl_object) where
  -- A call result that can be serialised is read back, whatever follows it, if its object is.
  result_round_trip :
      (r : RpcResult Obj) (bytes rest : Bytes)
      → serialize_result tl_object r ≡ some bytes
      → deserialize_result tl_object (bytes ++ rest) ≡ some (r, rest)
  unfolding serialize_result deserialize_result
  result_round_trip r bytes rest h =
      let (id, e, h₁) = bind-some (Int.write long r.req_msg_id true) _ h in
      let (body, e₁, h₂) = bind-some (tl_object.write r.result) _ h₁ in
      let eq : bytes ≡ id ++ body = cc in
      rw (eq, append_assoc id body rest)
        (ground (
          arith,
          int_round_trip long true r.req_msg_id id (body ++ rest) e,
          good r.result body rest e₁,
        ))

module _ {Salt : Type 0} (future_salt : Codec Salt) (good : RoundTrips future_salt) where
  regroup₃ : (a b c rest : Bytes) → (a ++ (b ++ c)) ++ rest ≡ a ++ (b ++ (c ++ rest))
  regroup₃ a b c rest = simp append_assoc

  -- A list of future salts that can be serialised is read back, if each salt is.
  salts_round_trip :
      (f : FutureSalts Salt) (bytes rest : Bytes)
      → serialize_salts future_salt f ≡ some bytes
      → deserialize_salts future_salt (bytes ++ rest) ≡ some (f, rest)
  unfolding serialize_salts deserialize_salts
  salts_round_trip f bytes rest h =
      let (id, e, h₁) = bind-some (Int.write long f.req_msg_id true) _ h in
      let (now, e₁, h₂) = bind-some (Int.write int f.now true) _ h₁ in
      let (body, e₂, h₃) = bind-some (write_counted future_salt f.salts) _ h₂ in
      let eq : bytes ≡ id ++ (now ++ body) = cc in
      rw (eq, regroup₃ id now body rest)
        (ground (
          arith,
          int_round_trip long true f.req_msg_id id (now ++ (body ++ rest)) e,
          int_round_trip int true f.now now (body ++ rest) e₁,
          read_counted-write future_salt good f.salts body rest e₂,
        ))
