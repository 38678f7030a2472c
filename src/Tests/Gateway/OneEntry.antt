-- ===== src/Tests/Gateway/OneEntry.antt =====
-- A cache of one entry with the behaviour that is asked of the package's caches.
use piltover.Base.{
  Bool, Bool-cases, List, Option, [], arith, if◌then◌else◌, inl, inr, none, refl, some, true, ◌∷◌,
  ◌≡◌, ◌⊎◌,
}
use piltover.Gateway.{LruOps, IsLru}

-- The keys have a Boolean equality.
module _ {K V : Type 0} (same : K → K → Bool) where
  abbrev find : K → Option (K × V) → Option V
  find j none = none
  find j (some (k, v)) = if same j k then some v else none

  abbrev set : K → V → Option (K × V) → Option V × Option (K × V)
  set k v none = (none, some (k, v))
  set k v (some (j, w)) = (if same j k then none else some w, some (k, v))

  abbrev delete : K → Option (K × V) → Option (K × V)
  delete k none = none
  delete k (some (j, w)) = if same k j then none else some (j, w)

  abbrev values : Option (K × V) → List V
  values none = []
  values (some (k, v)) = v ∷ []

  abbrev pub one_entry : LruOps K V (Option (K × V))
  one_entry = record {
    find = find;
    touch = λ k c. c;
    set = set;
    delete = delete;
    values = values;
    empty = none;
  }

  module _ (sound : (j k : K) → same j k ≡ true → j ≡ k)
      (same_refl : (k : K) → same k k ≡ true) where
    found : (j k : K) (v w : V) → find j (some (k, v)) ≡ some w → j ≡ k
    found j k v w e = elim (Bool-cases (same j k)) [
      | inl hit ↦ sound j k hit
      | inr miss ↦ let e' : none ≡ some w = rw miss at e in cc
    ]

    find_set_other :
        (j k : K) (v w : V) (c : Option (K × V))
        → find j (set k v c).1 ≡ some w
        → (j ≡ k) ⊎ (find j c ≡ some w)
    find_set_other j k v w none e = inl (found j k v w e)
    find_set_other j k v w (some _) e = inl (found j k v w e)

    evicted :
        (k : K) (v w : V) (c : Option (K × V))
        → (set k v c).0 ≡ some w
        → (j : K) × (find j c ≡ some w) × (find j (set k v c).1 ≡ none)
    evicted k v w none e = cc
    evicted k v w (some (j, u)) e = elim (Bool-cases (same j k)) [
      | inl hit ↦ let e' : none ≡ some w = rw hit at e in cc
      | inr miss ↦ (j, rw (same_refl j) (rw miss at e), rw miss refl)
    ]

    find_delete : (k : K) (c : Option (K × V)) → find k (delete k c) ≡ none
    find_delete k none = refl
    find_delete k (some (j, w)) = ground arith

    find_set : (k : K) (v : V) (c : Option (K × V)) → find k (set k v c).1 ≡ some v
    find_set k v none = rw (same_refl k) refl
    find_set k v (some (j, w)) = rw (same_refl k) refl

    find_delete_other :
        (j k : K) (w : V) (c : Option (K × V)) → find j (delete k c) ≡ some w → find j c ≡ some w
    find_delete_other j k w none e = e
    find_delete_other j k w (some (i, u)) e = ground arith

    pub one_entry-IsLru : IsLru one_entry
    one_entry-IsLru = record {
      find-touch = λ j k c. refl;
      find-set = find_set;
      find-set_other = find_set_other;
      evicted = evicted;
      find-delete = find_delete;
      find-delete_other = find_delete_other;
    }
