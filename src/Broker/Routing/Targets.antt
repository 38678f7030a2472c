-- ===== src/Broker/Routing/Targets.antt =====
-- base_broker.py: the set of sessions that a message names.
use piltover.Base.{
  Bool, Bool-cases, Distinct, List, Option, [], add, arith, false, get, if◌then◌else◌, inl, inr,
  member, member-append, member-union, none, refl, some, union, ℕ, ◌++◌, ◌||◌, ◌∷◌, ◌≡◌,
}
use piltover.Broker.{Broker}
use piltover.Broker.Subs.{SetDict, hears, in_set}

-- `MessageToUsers` and `MessageToUsersShort`: the second names one id where the first has a list.
pub record Addressees : Type 0 where
  pub users : Option (List ℕ)
  pub key_ids : Option (List ℕ)
  pub channel_ids : Option (List ℕ)
  pub auth_ids : Option (List ℕ)
  pub ignore_auth_id : Option (List ℕ)

pub record AddresseesShort : Type 0 where
  pub user : Option ℕ
  pub key_id : Option ℕ
  pub channel_id : Option ℕ
  pub auth_id : Option ℕ
  pub ignore_auth_id : Option ℕ

abbrev pub singleton : Option ℕ → Option (List ℕ)
singleton none = none
singleton (some id) = some (id ∷ [])

unfoldable pub widen : AddresseesShort → Addressees
widen m = record {
  users = singleton m.user;
  key_ids = singleton m.key_id;
  channel_ids = singleton m.channel_id;
  auth_ids = singleton m.auth_id;
  ignore_auth_id = singleton m.ignore_auth_id;
}

abbrev pub ids_of : Option (List ℕ) → List ℕ
ids_of none = []
ids_of (some ids) = ids

-- `if id not in sets: continue`, else `send_to.update(sets[id])`
unfoldable update_with : Option (List ℕ) → List ℕ → List ℕ
update_with none found = found
update_with (some set) found = union found set

unfoldable pub gather : SetDict → List ℕ → List ℕ → List ℕ
unfolding update_with
gather m [] found = found
gather m (id ∷ ids) found = gather m ids (update_with (get id m) found)

-- The loop over authorizations passes over the ignored ones.
unfoldable gather_auths : SetDict → List ℕ → List ℕ → List ℕ → List ℕ
unfolding update_with
gather_auths m ignored [] found = found
gather_auths m ignored (id ∷ ids) found =
    gather_auths m ignored ids (if member id ignored then found else update_with (get id m) found)

unfoldable pub collect_send_to : Broker → Addressees → List ℕ
unfolding gather gather_auths
collect_send_to b m =
    let s₁ = gather b.subscribed_users (ids_of m.users) [] in
    let s₂ = gather b.subscribed_keys (ids_of m.key_ids) s₁ in
    let s₃ = gather b.subscribed_channels (ids_of m.channel_ids) s₂ in
    gather_auths b.subscribed_auths (ids_of m.ignore_auth_id) (ids_of m.auth_ids) s₃

-- The session hears of one of the ids.
abbrev pub hears_any : SetDict → List ℕ → ℕ → Bool
hears_any m [] ref = false
hears_any m (id ∷ ids) ref = hears m id ref || hears_any m ids ref

abbrev pub without : List ℕ → List ℕ → List ℕ
without ignored [] = []
without ignored (id ∷ ids) =
    let rest = without ignored ids in if member id ignored then rest else id ∷ rest

member-update_with :
    (set : Option (List ℕ)) (found : List ℕ) (ref : ℕ)
    → member ref (update_with set found) ≡ (member ref found || in_set ref set)
unfolding update_with
member-update_with none found ref = ground arith
member-update_with (some set) found ref = member-union ref found set

pub member-gather :
    (m : SetDict) (ids found : List ℕ) (ref : ℕ)
    → member ref (gather m ids found) ≡ (member ref found || hears_any m ids ref)
unfolding gather
member-gather m [] found ref = ground arith
member-gather m (id ∷ ids) found ref = ground (
  arith,
  member-gather m ids (update_with (get id m) found) ref,
  member-update_with (get id m) found ref,
)

member-gather_auths :
    (m : SetDict) (ignored ids found : List ℕ) (ref : ℕ)
    → member ref (gather_auths m ignored ids found)
      ≡ (member ref found || hears_any m (without ignored ids) ref)
unfolding gather_auths
member-gather_auths m ignored [] found ref = ground arith
member-gather_auths m ignored (id ∷ ids) found ref = elim (Bool-cases (member id ignored)) [
  | inl skipped ↦ rw skipped (member-gather_auths m ignored ids found ref)
  | inr kept ↦ rw kept (
      ground (
        arith,
        member-gather_auths m ignored ids (update_with (get id m) found) ref,
        member-update_with (get id m) found ref,
      ))
]

-- A message is meant for a session exactly if the session is known under one of the users, keys or
-- channels that the message names, or under one of its authorizations that is not ignored.
pub member-collect_send_to :
    (b : Broker) (m : Addressees) (ref : ℕ)
    → member ref (collect_send_to b m) ≡ (
        hears_any b.subscribed_users (ids_of m.users) ref
        || (hears_any b.subscribed_keys (ids_of m.key_ids) ref
            || (hears_any b.subscribed_channels (ids_of m.channel_ids) ref
                || hears_any b.subscribed_auths
                    (without (ids_of m.ignore_auth_id) (ids_of m.auth_ids))
                    ref)))
unfolding collect_send_to
member-collect_send_to b m ref =
    let s₁ = gather b.subscribed_users (ids_of m.users) [] in
    let s₂ = gather b.subscribed_keys (ids_of m.key_ids) s₁ in
    let s₃ = gather b.subscribed_channels (ids_of m.channel_ids) s₂ in
    rw
      (
        member-gather_auths b.subscribed_auths (ids_of m.ignore_auth_id) (ids_of m.auth_ids) s₃ ref,
        member-gather b.subscribed_channels (ids_of m.channel_ids) s₂ ref,
        member-gather b.subscribed_keys (ids_of m.key_ids) s₁ ref,
        member-gather b.subscribed_users (ids_of m.users) [] ref,
      )
      (ground arith)

Distinct-append :
    (a : ℕ) (xs : List ℕ) → Distinct xs → member a xs ≡ false → Distinct (xs ++ a ∷ [])
Distinct-append a [] d h = (refl, tt)
Distinct-append a (x ∷ xs) d h =
    ground (arith, Distinct-append a xs d.1, member-append x xs (a ∷ []))

Distinct-add : (a : ℕ) (xs : List ℕ) → Distinct xs → Distinct (add a xs)
Distinct-add a xs d = elim (Bool-cases (member a xs)) [
  | inl there ↦ rw there d
  | inr new ↦ rw new (Distinct-append a xs d new)
]

Distinct-union : (xs ys : List ℕ) → Distinct xs → Distinct (union xs ys)
Distinct-union xs [] d = d
Distinct-union xs (y ∷ ys) d = Distinct-union (add y xs) ys (Distinct-add y xs d)

Distinct-update_with :
    (set : Option (List ℕ)) (found : List ℕ) → Distinct found → Distinct (update_with set found)
unfolding update_with
Distinct-update_with none found d = d
Distinct-update_with (some set) found d = Distinct-union found set d

Distinct-gather :
    (m : SetDict) (ids found : List ℕ) → Distinct found → Distinct (gather m ids found)
unfolding gather
Distinct-gather m [] found d = d
Distinct-gather m (id ∷ ids) found d =
    Distinct-gather m ids (update_with (get id m) found) (Distinct-update_with (get id m) found d)

Distinct-gather_auths :
    (m : SetDict) (ignored ids found : List ℕ)
    → Distinct found
    → Distinct (gather_auths m ignored ids found)
unfolding gather_auths
Distinct-gather_auths m ignored [] found d = d
Distinct-gather_auths m ignored (id ∷ ids) found d = elim (Bool-cases (member id ignored)) [
  | inl skipped ↦ rw skipped (Distinct-gather_auths m ignored ids found d)
  | inr kept ↦ rw kept (
      Distinct-gather_auths m ignored ids (update_with (get id m) found)
        (Distinct-update_with (get id m) found d))
]

pub collect_send_to-Distinct : (b : Broker) (m : Addressees) → Distinct (collect_send_to b m)
unfolding collect_send_to
collect_send_to-Distinct b m =
    Distinct-gather_auths b.subscribed_auths (ids_of m.ignore_auth_id) (ids_of m.auth_ids) _ (
      Distinct-gather b.subscribed_channels (ids_of m.channel_ids) _ (
        Distinct-gather b.subscribed_keys (ids_of m.key_ids) _
          (Distinct-gather b.subscribed_users (ids_of m.users) [] tt)))
