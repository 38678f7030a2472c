-- ===== src/Tl/Codec.antt =====
-- The interface of a serialised type (`_Primitive` of piltover/tl/primitives/vector.py): a writer,
-- a reader, and what makes them fit.
use piltover.Base.{All, List, Option, some, ℕ, ◌++◌, ◌<◌, ◌≡◌}

abbrev pub Bytes : Type 0
Bytes = List ℕ

abbrev pub AreBytes : Bytes → Type 0
AreBytes = All (λ b. b < 256)

abbrev pub Reader {ℓ} : Type ℓ → Type ℓ
Reader A = Bytes → Option (A × Bytes)

pub record Codec (A : Type 0) : Type 0 where
  pub write : A → Option Bytes
  pub read : Reader A

-- What is written is read back, whatever follows it in the stream.
abbrev pub RoundTrips : {A : Type 0} → Codec A → Type 0
RoundTrips {A} c =
    (v : A) (bytes rest : Bytes) → c.write v ≡ some bytes → c.read (bytes ++ rest) ≡ some (v, rest)
