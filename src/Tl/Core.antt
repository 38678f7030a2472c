-- ===== src/Tl/Core.antt =====
-- piltover/tl/core_types.py: messages, containers of messages, call results and future salts. The
-- other classes of the schema are generated: `TLObject` stands by its codec, a parameter.
pub mod Messages
pub mod Results
use piltover.Base.{List, Option, [], arith, drop, length, none, refl, some, take, true, ◌++◌, ◌≡◌}
use piltover.Base.Ints.{ℤ, pos, negsuc}
use piltover.Tl.Codec.{Bytes, Reader, Codec, RoundTrips}
use piltover.Tl.Int
use piltover.Tl.Int.{int}
use mathlib.Core.List.{append_assoc}
use piltover.Tl.Int.RoundTrip.{int_round_trip}
use piltover.Tl.Vector.RoundTrip as Elements
use piltover.Tl.Vector.{read_elements, write_elements}

infixl 10 ◌>>=◌
abbrev pub ◌>>=◌ {ℓ κ} : {A : Type ℓ} {B : Type κ} → Option A → (A → Option B) → Option B
none >>= f = none
some a >>= f = f a

-- `stream.read(length)`: a negative length reads all that is left.
unfoldable pub stream_read : ℤ → Bytes → Bytes × Bytes
stream_read (pos n) stream = (take n stream, drop n stream)
stream_read (negsuc n) stream = (stream, [])

pub record Message (Obj : Type 0) : Type 0 where
  pub message_id : ℤ
  pub seq_no : ℤ
  pub obj : Obj

pub record RpcResult (Obj : Type 0) : Type 0 where
  pub req_msg_id : ℤ
  pub result : Obj

pub record FutureSalts (Salt : Type 0) : Type 0 where
  pub req_msg_id : ℤ
  pub now : ℤ
  pub salts : List Salt

-- `for _ in range(count)` after `count = Int.read(stream)`
unfoldable pub read_counted : {A : Type 0} → Codec A → Reader (List A)
read_counted element stream = do
  (count, left) ← Int.read int true stream
  elim count [ pos n ↦ read_elements element n left | negsuc n ↦ some ([], left) ]

unfoldable pub write_counted : {A : Type 0} → Codec A → List A → Option Bytes
write_counted element xs = do
  count ← Int.write int (pos (length xs)) true
  body ← write_elements element xs
  some (count ++ body)

pub bind-some {ℓ κ} :
    {A : Type ℓ} {B : Type κ} (m : Option A) (f : A → Option B) {b : B}
    → (m >>= f) ≡ some b
    → (a : A) × (m ≡ some a) × (f a ≡ some b)
bind-some none f h = cc
bind-some (some a) f h = (a, refl, h)

pub read_counted-write :
    {A : Type 0} (element : Codec A)
    → RoundTrips element
    → (xs : List A) (bytes rest : Bytes) → write_counted element xs ≡ some bytes
    → read_counted element (bytes ++ rest) ≡ some (xs, rest)
unfolding read_counted write_counted
read_counted-write element good xs bytes rest h =
    let (count, e, h₁) = bind-some (Int.write int (pos (length xs)) true) _ h in
    let (body, f, h₂) = bind-some (write_elements element xs) _ h₁ in
    let eq : bytes ≡ count ++ body = cc in
    rw (eq, append_assoc count body rest)
      (ground (
        arith,
        int_round_trip int true (pos (length xs)) count (body ++ rest) e,
        Elements.read_elements-write element good xs body rest f,
      ))
