-- ===== src/Broker/Subs.antt =====
-- base_broker.py: one dict from ids to sets of sessions, as `subscribe_…`, `unsubscribe_…` and
-- `channels_diff_update` treat each of theirs.
use piltover.Base.{
  Bool, Dict, List, Option, Option-cases, [], add, arith, discard, false, get, get-put, get-remove,
  if◌then◌else◌, inl, inr, member, member-add, member-discard, none, not, put, refl, remove, some,
  ℕ, ◌&&◌, ◌==◌, ◌||◌, ◌∷◌, ◌≡◌,
}

abbrev pub SetDict : Type 0
SetDict = Dict (List ℕ)

-- The set at a key, made if it is not there, with the session added.
unfoldable add_one : ℕ → ℕ → SetDict → SetDict
add_one id s m = elim (get id m) [ none ↦ put id (s ∷ []) m | some set ↦ put id (add s set) m ]

-- `if not sets[id]: del sets[id]`
unfoldable put_or_remove : ℕ → List ℕ → SetDict → SetDict
put_or_remove id [] m = remove id m
put_or_remove id (x ∷ xs) m = put id (x ∷ xs) m

-- The session is removed, and the key with it if it was the last one.
unfoldable remove_one : ℕ → ℕ → SetDict → SetDict
unfolding put_or_remove
remove_one id s m = elim (get id m) [ none ↦ m | some set ↦ put_or_remove id (discard s set) m ]

-- `if not user_id: return` passes over `None` and 0.
unfoldable pub add_to : Option ℕ → ℕ → SetDict → SetDict
unfolding add_one
add_to none s m = m
add_to (some id) s m = if id == 0 then m else add_one id s m

unfoldable pub remove_from : Option ℕ → ℕ → SetDict → SetDict
unfolding remove_one
remove_from none s m = m
remove_from (some id) s m = if id == 0 then m else remove_one id s m

-- The two loops of `channels_diff_update`.
unfoldable pub add_each : List ℕ → ℕ → SetDict → SetDict
unfolding add_one
add_each [] s m = m
add_each (id ∷ ids) s m = add_each ids s (add_one id s m)

unfoldable pub remove_each : List ℕ → ℕ → SetDict → SetDict
unfolding remove_one
remove_each [] s m = m
remove_each (id ∷ ids) s m = remove_each ids s (remove_one id s m)

-- Whether a session is in the set of a key.
abbrev pub in_set : ℕ → Option (List ℕ) → Bool
in_set s none = false
in_set s (some set) = member s set

abbrev pub hears : SetDict → ℕ → ℕ → Bool
hears m id s = in_set s (get id m)

-- `id` is what an optional id names.
abbrev pub names : Option ℕ → ℕ → Bool
names none id = false
names (some j) id = if j == 0 then false else j == id

hears-add_one :
    (id s : ℕ) (m : SetDict) (j t : ℕ)
    → hears (add_one id s m) j t ≡ ((id == j && s == t) || hears m j t)
unfolding add_one
hears-add_one id s m j t = elim (Option-cases (get id m)) [
  | inl e ↦ ground (arith, e, get-put id j (s ∷ []) m)
  | inr (set, e) ↦ ground (arith, e, get-put id j (add s set) m, member-add s t set)
]

hears-put_or_remove :
    (id : ℕ) (set : List ℕ) (m : SetDict) (j t : ℕ)
    → hears (put_or_remove id set m) j t ≡ (if id == j then member t set else hears m j t)
unfolding put_or_remove
hears-put_or_remove id [] m j t = ground (arith, get-remove id j m)
hears-put_or_remove id (x ∷ xs) m j t = ground (arith, get-put id j (x ∷ xs) m)

hears-remove_one :
    (id s : ℕ) (m : SetDict) (j t : ℕ)
    → hears (remove_one id s m) j t ≡ (not (id == j && s == t) && hears m j t)
unfolding remove_one
hears-remove_one id s m j t = elim (Option-cases (get id m)) [
  | inl e ↦ ground (arith, e)
  | inr (set, e) ↦
      ground (arith, e, hears-put_or_remove id (discard s set) m j t, member-discard s t set)
]

pub hears-add_to :
    (id : Option ℕ) (s : ℕ) (m : SetDict) (j t : ℕ)
    → hears (add_to id s m) j t ≡ ((names id j && s == t) || hears m j t)
unfolding add_to
hears-add_to none s m j t = refl
hears-add_to (some id) s m j t = ground (arith, hears-add_one id s m j t)

pub hears-remove_from :
    (id : Option ℕ) (s : ℕ) (m : SetDict) (j t : ℕ)
    → hears (remove_from id s m) j t ≡ (not (names id j && s == t) && hears m j t)
unfolding remove_from
hears-remove_from none s m j t = refl
hears-remove_from (some id) s m j t = ground (arith, hears-remove_one id s m j t)

pub hears-add_each :
    (ids : List ℕ) (s : ℕ) (m : SetDict) (j t : ℕ)
    → hears (add_each ids s m) j t ≡ ((member j ids && s == t) || hears m j t)
unfolding add_each
hears-add_each [] s m j t = refl
hears-add_each (id ∷ ids) s m j t =
    ground (arith, hears-add_each ids s (add_one id s m) j t, hears-add_one id s m j t)

pub hears-remove_each :
    (ids : List ℕ) (s : ℕ) (m : SetDict) (j t : ℕ)
    → hears (remove_each ids s m) j t ≡ (not (member j ids && s == t) && hears m j t)
unfolding remove_each
hears-remove_each [] s m j t = refl
hears-remove_each (id ∷ ids) s m j t =
    ground (arith, hears-remove_each ids s (remove_one id s m) j t, hears-remove_one id s m j t)
