-- ===== src/Tl/Core/Messages.antt =====
-- core_types.py: `Message` and `MsgContainer`, over the codec of the generated classes.
use piltover.Base.{
  List, Option, [], ap, arith, drop-append, length, refl, some, sym, take-append, true, ◌++◌, ◌∙◌,
  ◌≡◌,
}
use mathlib.Core.List.{append_assoc, append-nil}
use piltover.Base.Ints.{pos}
use piltover.Tl.Codec.{Bytes, Reader, Codec, RoundTrips}
use piltover.Tl.Int
use piltover.Tl.Int.{int, long}
use piltover.Tl.Int.RoundTrip.{int_round_trip}
use piltover.Tl.Core.{
  ◌>>=◌, Message, stream_read, bind-some, read_counted, write_counted, read_counted-write,
}

module _ {Obj : Type 0} (tl_object : Codec Obj) where
  -- Bytes of the body that its object leaves unread are dropped with the inner stream.
  unfoldable pub deserialize : Reader (Message Obj)
  unfolding stream_read
  deserialize stream = do
    (msg_id, left) ← Int.read long true stream
    (seq_no, left') ← Int.read int true left
    (size, left'') ← Int.read int true left'
    let inner = stream_read size left''
    (body, _) ← tl_object.read inner.0
    some (record { message_id = msg_id; seq_no = seq_no; obj = body }, inner.1)

  unfoldable pub serialize : Message Obj → Option Bytes
  serialize m = do
    body ← tl_object.write m.obj
    msg_id ← Int.write long m.message_id true
    seq_no ← Int.write int m.seq_no true
    size ← Int.write int (pos (length body)) true
    some (msg_id ++ (seq_no ++ (size ++ body)))

  abbrev pub codec : Codec (Message Obj)
  codec = record { write = serialize; read = deserialize }

  -- `MsgContainer`
  unfoldable pub deserialize_container : Reader (List (Message Obj))
  deserialize_container = read_counted codec

  unfoldable pub serialize_container : List (Message Obj) → Option Bytes
  serialize_container = write_counted codec

module _ {Obj : Type 0} (tl_object : Codec Obj) (good : RoundTrips tl_object) where
  regroup₄ :
      (a b c d rest : Bytes) → (a ++ (b ++ (c ++ d))) ++ rest ≡ a ++ (b ++ (c ++ (d ++ rest)))
  regroup₄ a b c d rest = simp append_assoc

  read_body :
      (body : Bytes) (v : Obj) → tl_object.write v ≡ some body → tl_object.read body ≡ some (v, [])
  read_body body v h = ap tl_object.read (sym (append-nil body)) ∙ good v body [] h

  -- A message that can be serialised is read back, whatever follows it, if its object is.
  pub message_round_trip :
      (m : Message Obj) (bytes rest : Bytes)
      → serialize tl_object m ≡ some bytes
      → deserialize tl_object (bytes ++ rest) ≡ some (m, rest)
  unfolding deserialize serialize
  message_round_trip m bytes rest h =
      let (body, e, h₁) = bind-some (tl_object.write m.obj) _ h in
      let (msg_id, e₁, h₂) = bind-some (Int.write long m.message_id true) _ h₁ in
      let (seq_no, e₂, h₃) = bind-some (Int.write int m.seq_no true) _ h₂ in
      let (size, e₃, h₄) = bind-some (Int.write int (pos (length body)) true) _ h₃ in
      let eq : bytes ≡ msg_id ++ (seq_no ++ (size ++ body)) = cc in
      rw (eq, regroup₄ msg_id seq_no size body rest)
        (ground (
          arith,
          int_round_trip long true m.message_id msg_id (seq_no ++ (size ++ (body ++ rest))) e₁,
          int_round_trip int true m.seq_no seq_no (size ++ (body ++ rest)) e₂,
          int_round_trip int true (pos (length body)) size (body ++ rest) e₃,
          take-append (length body) body rest refl,
          drop-append (length body) body rest refl,
          read_body body m.obj e,
        ))

  -- A container of any number of messages is read back, whatever follows it, if the objects in it
  -- are.
  pub container_round_trip :
      (messages : List (Message Obj)) (bytes rest : Bytes)
      → serialize_container tl_object messages ≡ some bytes
      → deserialize_container tl_object (bytes ++ rest) ≡ some (messages, rest)
  unfolding serialize_container deserialize_container
  container_round_trip = read_counted-write (codec tl_object) message_round_trip
