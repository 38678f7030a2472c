-- ===== src/Gateway/Action/Keeps.antt =====
-- Coroutines that keep a property of the state, whether they return or raise.
use piltover.Base.{Bool, false, refl, true, ◌≡◌}
use piltover.Gateway.Action.{Action, Done, Result, done, raised, ◌>>=◌, ◌>>◌, try_finally}

module _ {S : Type 0} (P : S → Type 0) where
  abbrev pub Keeps : {A : Type 0} → Action S A → Type 0
  Keeps m = (s : S) → P s → P (m s).1

  bind_cases :
      {A B : Type 0} (r : Result A × S) (f : A → Action S B)
      → P r.1
      → ((a : A) → Keeps (f a))
      → P (((λ _. r) >>= f) r.1).1
  bind_cases (done a, s) f p k = k a s p
  bind_cases (raised e, s) f p k = p

  pub bind-Keeps :
      {A B : Type 0} (m : Action S A) (f : A → Action S B)
      → Keeps m
      → ((a : A) → Keeps (f a))
      → Keeps (m >>= f)
  bind-Keeps m f p k s h = bind_cases (m s) f (p s h) k

  pub then-Keeps :
      {A B : Type 0} (m : Action S A) (k : Action S B) → Keeps m → Keeps k → Keeps (m >> k)
  then-Keeps m k p q = bind-Keeps m (λ _. k) p (λ _. q)

  pub test-Keeps :
      {A : Type 0} (m k : Action S A)
      → Keeps m
      → Keeps k
      → (b : Bool) → Keeps (elim b [ true ↦ m | false ↦ k ])
  test-Keeps m k p q true = p
  test-Keeps m k p q false = q

  -- The state after a `finally` is the one that its last part leaves.
  pub finally_state :
      {A : Type 0} (m : Action S A) (f : Action S Done) (s : S)
      → (try_finally m f s).1 ≡ (f (m s).1).1
  finally_state m f s = go (m s).0 (f (m s).1)
    where
      go :
          {A : Type 0} (r : Result A) (p : Result Done × S)
          → ((λ (q : Result A × S). q.1)
              (elim p.0 [ done _ ↦ (r, p.1) | raised e ↦ (raised e, p.1) ]))
            ≡ p.1
      go r (done _, s) = refl
      go r (raised e, s) = refl
