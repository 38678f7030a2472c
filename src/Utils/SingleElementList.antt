-- ===== src/Utils/SingleElementList.antt =====
-- piltover/utils/single_element_list.py: a list of copies of one element.
use piltover.Base.{
  Bool, List, Option, [], arith, false, if◌then◌else◌, leb, none, refl, replicate, some, suc, zero,
  ℕ, ◌-◌, ◌<◌, ◌==◌, ◌∷◌, ◌≡◌, ◌≤◌,
}
use piltover.Base.Ints.{ℤ, pos, negsuc}

pub record SingleElementList {ℓ} (A : Type ℓ) : Type ℓ where
  pub element : A
  pub size : ℕ

-- `SingleElementListIterator`
pub record Iterator {ℓ} (A : Type ℓ) : Type ℓ where
  pub element : A
  pub iters_left : ℕ

module _ {ℓ} {A : Type ℓ} where
  -- `__getitem__` of an integer, `none` for an `IndexError`. A negative index is below every length.
  unfoldable getitem : SingleElementList A → ℤ → Option A
  getitem l (pos index) = if leb l.size index then none else some l.element
  getitem l (negsuc index) = some l.element

  -- `__contains__`, by the test for being equal to what is asked for
  unfoldable contains : (A → Bool) → SingleElementList A → Bool
  contains same l = same l.element

  abbrev iter : SingleElementList A → Iterator A
  iter l = record { element = l.element; iters_left = l.size }

  -- `__next__`, `none` for `StopIteration`
  unfoldable next : Iterator A → Option (A × Iterator A)
  next it =
      if it.iters_left == 0
      then none
      else some (it.element, record it { iters_left = it.iters_left - 1 })

  unfoldable run : ℕ → Iterator A → Option (List A)
  unfolding next
  run zero it = none
  run (suc steps) it = elim (next it) [
    | none ↦ some []
    | some (a, it') ↦ elim (run steps it') [ none ↦ none | some rest ↦ some (a ∷ rest) ]
  ]

  run-replicate :
      (steps n : ℕ) (a : A)
      → n < steps
      → run steps (record { element = a; iters_left = n }) ≡ some (replicate n a)
  unfolding run next
  run-replicate zero n a enough = absurd (omega arith)
  run-replicate (suc steps) zero a enough = refl
  run-replicate (suc steps) (suc n) a enough =
      let here : (suc n == 0) ≡ false = ground arith in
      let less : suc n - 1 ≡ n = omega arith in
      rw (run, next, here, less, run-replicate steps n a (omega arith)) refl

  -- Run through, it gives its element as often as it is long, and ends, if it is given more steps.
  run-iter :
      (steps : ℕ) (l : SingleElementList A)
      → l.size < steps
      → run steps (iter l) ≡ some (replicate l.size l.element)
  run-iter steps l enough = run-replicate steps l.size l.element enough

  -- Each index below the length has the element, also a negative one, and the others have none.
  getitem_iff :
      (l : SingleElementList A) (i : ℕ)
      → (getitem l (negsuc i) ≡ some l.element)
        × ((i < l.size → getitem l (pos i) ≡ some l.element)
            × (l.size ≤ i → getitem l (pos i) ≡ none))
  unfolding getitem
  getitem_iff l i = (refl, ((λ h. ground (arith, h)), (λ h. ground (arith, h))))
