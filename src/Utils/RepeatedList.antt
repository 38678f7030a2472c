-- ===== src/Utils/RepeatedList.antt =====
-- piltover/utils/repeated_list.py: a list that stands for several copies of another one.
use native.Mathlib.Nat.{mod-eq_of_lt, add-mod_left, mul-suc}
use piltover.Base.{
  Bool, Bool-cases, List, Option, [], ap, arith, drop, false, if◌then◌else◌, inl, inr, leb, length,
  length-append, ltb, none, refl, some, suc, sym, zero, ℕ, ◌%◌, ◌*◌, ◌++◌, ◌+◌, ◌-◌, ◌<◌, ◌||◌, ◌∙◌,
  ◌∷◌, ◌≡◌, ◌≤◌,
}
use piltover.Base.Ints.{ℤ, pos, negsuc}

pub record RepeatedList {ℓ} (A : Type ℓ) : Type ℓ where
  pub collection : List A
  pub repeat_times : ℕ

-- `RepeatedListIterator`
pub record Iterator {ℓ} (A : Type ℓ) : Type ℓ where
  pub list : RepeatedList A
  pub next_pos : ℕ

-- What `__getitem__` of an integer gives.
pub data Item {ℓ} (A : Type ℓ) : Type ℓ where
  item : A → Item A
  index_error : Item A
  not_implemented : Item A

-- What `__next__` gives; `failed` is an exception that is not `StopIteration`.
pub data Next {ℓ} (A : Type ℓ) : Type ℓ where
  stop_iteration : Next A
  failed : Next A
  yielded : A → Iterator A → Next A

module _ {ℓ} {A : Type ℓ} where
  abbrev pub get_elem? : List A → ℕ → Option A
  get_elem? [] i = none
  get_elem? (x ∷ xs) zero = some x
  get_elem? (x ∷ xs) (suc i) = get_elem? xs i

  abbrev full_length : RepeatedList A → ℕ
  full_length l = length l.collection * l.repeat_times

  -- Under the guard the collection is not empty, and the remainder is defined.
  unfoldable pub getitem : RepeatedList A → ℤ → Item A
  getitem l (negsuc n) = not_implemented
  getitem l (pos index) =
      if leb (full_length l) index
      then index_error
      else elim (get_elem? l.collection (index % length l.collection)) [
        | none ↦ index_error
        | some a ↦ item a
      ]

  abbrev pub iter : RepeatedList A → Iterator A
  iter l = record { list = l; next_pos = 0 }

  unfoldable pub next : Iterator A → Next A
  next it =
      let c = it.list.collection in
      if leb (length c * it.list.repeat_times) it.next_pos
      then stop_iteration
      else elim (get_elem? c (it.next_pos % length c)) [
        | none ↦ failed
        | some a ↦ yielded a (record it { next_pos = suc it.next_pos })
      ]

  -- A `for` over the iterator for a number of steps; `none` if it does not end in them.
  unfoldable pub run : ℕ → Iterator A → Option (List A)
  unfolding next
  run zero it = none
  run (suc steps) it = elim (next it) [
    | stop_iteration ↦ some []
    | failed ↦ none
    | yielded a it' ↦ elim (run steps it') [ none ↦ none | some rest ↦ some (a ∷ rest) ]
  ]

  abbrev any_of : (A → Bool) → List A → Bool
  any_of same [] = false
  any_of same (x ∷ xs) = same x || any_of same xs

  -- `__contains__`, by the test for being equal to what is asked for
  unfoldable contains : (A → Bool) → RepeatedList A → Bool
  contains same l = any_of same l.collection

  -- The list that it stands for.
  abbrev pub copies : ℕ → List A → List A
  copies zero c = []
  copies (suc n) c = c ++ copies n c

  abbrev pub found : Option A → Item A
  found none = index_error
  found (some a) = item a

  length-copies : (n : ℕ) (c : List A) → length (copies n c) ≡ length c * n
  length-copies zero c = omega arith
  length-copies (suc n) c =
      let joined = length-append c (copies n c) in
      let rest = length-copies n c in let size = mul-suc (length c) n in omega arith

  get_elem?-append_left :
      (xs ys : List A) (i : ℕ) → i < length xs → get_elem? (xs ++ ys) i ≡ get_elem? xs i
  get_elem?-append_left [] ys i h = absurd (omega arith)
  get_elem?-append_left (x ∷ xs) ys zero h = refl
  get_elem?-append_left (x ∷ xs) ys (suc i) h = get_elem?-append_left xs ys i (omega arith)

  get_elem?-append_right :
      (xs ys : List A) (i k : ℕ) → i ≡ length xs + k → get_elem? (xs ++ ys) i ≡ get_elem? ys k
  get_elem?-append_right [] ys i k e = ap (get_elem? ys) (omega arith)
  get_elem?-append_right (x ∷ xs) ys zero k e = absurd (omega arith)
  get_elem?-append_right (x ∷ xs) ys (suc i) k e = get_elem?-append_right xs ys i k (omega arith)

  -- Where a list has an element, and what is left there.
  drop_next :
      (xs : List A) (i : ℕ)
      → i < length xs
      → (a : A) × (get_elem? xs i ≡ some a) × (drop i xs ≡ a ∷ drop (suc i) xs)
  drop_next [] i h = absurd (omega arith)
  drop_next (x ∷ xs) zero h = (x, refl, refl)
  drop_next (x ∷ xs) (suc i) h = drop_next xs i (omega arith)

  drop_all : (xs : List A) (i : ℕ) → length xs ≤ i → drop i xs ≡ []
  drop_all [] zero h = refl
  drop_all [] (suc i) h = refl
  drop_all (x ∷ xs) zero h = absurd (omega arith)
  drop_all (x ∷ xs) (suc i) h = drop_all xs i (omega arith)

  get_elem?-copies :
      (n : ℕ) (c : List A) (i : ℕ)
      → i < length c * n
      → get_elem? (copies n c) i ≡ get_elem? c (i % length c)
  get_elem?-copies zero c i h = absurd (omega arith)
  get_elem?-copies (suc n) c i h = elim (Bool-cases (ltb i (length c))) [
    | inl below ↦
        let small : i < length c = ground arith in
        get_elem?-append_left c (copies n c) i small ∙ ap (get_elem? c) (sym (mod-eq_of_lt small))
    | inr beyond ↦
        let k = i - length c in
        let split : i ≡ length c + k = ground arith in
        let size = mul-suc (length c) n in
        get_elem?-append_right c (copies n c) i k split
        ∙ get_elem?-copies n c k (omega arith)
        ∙ ap (get_elem? c) (sym (add-mod_left (length c) k) ∙ ap (λ j. j % length c) (sym split))
  ]

  -- From a position on, the iterator gives what is left of the copies.
  run_rest :
      (steps : ℕ) (l : RepeatedList A) (p : ℕ)
      → full_length l < p + steps
      → p ≤ full_length l
      → run steps (record { list = l; next_pos = p })
        ≡ some (drop p (copies l.repeat_times l.collection))
  unfolding run next
  run_rest zero l p enough within = absurd (omega arith)
  run_rest (suc steps) l p enough within =
      let size = length-copies l.repeat_times l.collection in
      elim (Bool-cases (leb (full_length l) p)) [
        | inl over ↦
            rw (run, next, over)
              (ap some (sym (drop_all (copies l.repeat_times l.collection) p (ground arith))))
        | inr more ↦
            let inside : p < full_length l = ground arith in
            let (a, there, rest) =
              drop_next (copies l.repeat_times l.collection) p (ground (arith, size)) in
            let here = sym (get_elem?-copies l.repeat_times l.collection p inside) ∙ there in
            rw (run, next, more, here, run_rest steps l (suc p) (omega arith) (omega arith))
              (ap some (sym rest))
      ]

  get_elem?-beyond : (xs : List A) (i : ℕ) → length xs ≤ i → get_elem? xs i ≡ none
  get_elem?-beyond [] i h = refl
  get_elem?-beyond (x ∷ xs) zero h = absurd (omega arith)
  get_elem?-beyond (x ∷ xs) (suc i) h = get_elem?-beyond xs i (omega arith)

  getitem-copies :
      (l : RepeatedList A) (i : ℕ)
      → getitem l (pos i) ≡ found (get_elem? (copies l.repeat_times l.collection) i)
  unfolding getitem
  getitem-copies l i =
      let size = length-copies l.repeat_times l.collection in
      elim (Bool-cases (leb (full_length l) i)) [
        | inl over ↦
            rw
              (
                getitem,
                over,
                get_elem?-beyond (copies l.repeat_times l.collection) i (ground (arith, size)),
              )
              refl
        | inr more ↦
            let inside : i < full_length l = ground arith in
            let (a, there, _) =
              drop_next (copies l.repeat_times l.collection) i (ground (arith, size)) in
            let here = sym (get_elem?-copies l.repeat_times l.collection i inside) ∙ there in
            rw (getitem, more, here, there) refl
      ]

  -- Run through, a repeated list gives the copies of its collection one after another and ends, if it
  -- is given more steps than it has elements; and under an index that is not negative it has what
  -- stands there in the copies, and an `IndexError` if nothing does.
  pub repeated_list_exact :
      (steps : ℕ) (l : RepeatedList A) (i : ℕ)
      → full_length l < steps
      → (run steps (iter l) ≡ some (copies l.repeat_times l.collection))
        × (getitem l (pos i) ≡ found (get_elem? (copies l.repeat_times l.collection) i))
  repeated_list_exact steps l i enough =
      (run_rest steps l 0 (omega arith) (omega arith), getitem-copies l i)

  any_of-append :
      (same : A → Bool) (xs ys : List A)
      → any_of same (xs ++ ys) ≡ (any_of same xs || any_of same ys)
  any_of-append same [] ys = refl
  any_of-append same (x ∷ xs) ys = ground (arith, any_of-append same xs ys)

  any_of-copies :
      (same : A → Bool) (n : ℕ) (c : List A) → any_of same (copies (suc n) c) ≡ any_of same c
  any_of-copies same zero c = ground (arith, any_of-append same c [])
  any_of-copies same (suc n) c =
      ground (arith, any_of-append same c (copies (suc n) c), any_of-copies same n c)

  -- A list of at least one copy contains what the copies contain.
  contains-copies :
      (same : A → Bool) (l : RepeatedList A) (n : ℕ)
      → l.repeat_times ≡ suc n
      → contains same l ≡ any_of same (copies l.repeat_times l.collection)
  unfolding contains
  contains-copies same l n e = rw e (sym (any_of-copies same n l.collection))
