-- ===== src/Gateway/Action.antt =====
-- A coroutine of piltover/gateway: state and exceptions. What was done before a raise stays done.
pub mod Keeps
use piltover.Base.{Option, ℕ}

-- `Disconnection` with the transport error that it sends, without its sign, or any other exception.
pub data Exception : Type 0 where
  disconnection : Option ℕ → Exception
  other : Exception

pub data Result (A : Type 0) : Type 0 where
  done : A → Result A
  raised : Exception → Result A

abbrev pub Action : Type 0 → Type 0 → Type 0
Action S A = S → Result A × S

module _ {S A : Type 0} where
  abbrev pub pure : A → Action S A
  pure a s = (done a, s)

  abbrev pub raise : Exception → Action S A
  raise e s = (raised e, s)

  abbrev pub gets : (S → A) → Action S A
  gets f s = (done (f s), s)

abbrev pub Done : Type 0
Done = Unit {0}

abbrev pub modify : {S : Type 0} → (S → S) → Action S Done
modify f s = (done tt, f s)

infixl 5 ◌>>=◌ ◌>>◌
abbrev pub ◌>>=◌ : {S A B : Type 0} → Action S A → (A → Action S B) → Action S B
◌>>=◌ m f s = let (r, s') = m s in elim r [ done a ↦ f a s' | raised e ↦ raise e s' ]

abbrev pub ◌>>◌ : {S A B : Type 0} → Action S A → Action S B → Action S B
m >> k = m >>= λ _. k

-- `try: m finally: f`
abbrev pub try_finally : {S A : Type 0} → Action S A → Action S Done → Action S A
try_finally m f s =
    let (r, s') = m s in
    let (r', s'') = f s' in elim r' [ done _ ↦ (r, s'') | raised e ↦ (raised e, s'') ]
