-- ===== src/Privacy/Update/Decides.antt =====
-- privacy_rule.py: what a rule says after it was set.
use piltover.Base.{
  ==→eq, Bool, Bool-cases, Dict, List, Option, [], add, ap, arith, false, get, get-put,
  if◌then◌else◌, inl, inr, length, member, member-add, member-union, none, not, put, refl, some,
  true, union, ℕ, ◌&&◌, ◌==◌, ◌||◌, ◌∙◌, ◌∷◌, ◌≡◌,
}
use piltover.Privacy.{PrivacyRule, decide}
use piltover.Privacy.Update.{
  InputRule, InputUser, Wanted, input_self, input_user, allow_everyone, allow_the_contacts,
  allow_these, disallow_these, ignored, inputusers_to_uids, nothing_wanted, delete_others,
  write_each, read_rules, or_new, update_from_tl,
}

get-delete_others :
    (ids : List ℕ) (u : ℕ) (m : Dict Bool)
    → get u (delete_others ids m) ≡ (if member u ids then get u m else none)
unfolding delete_others
get-delete_others ids u [] = ground arith
get-delete_others ids u ((i, b) ∷ m) = elim (Bool-cases (i == u)) [
  | inl hit ↦
      let same : member i ids ≡ member u ids = ap (λ j. member j ids) (==→eq i u hit) in
      ground (arith, get-delete_others ids u m, same)
  | inr miss ↦ ground (arith, get-delete_others ids u m)
]

get-write_each :
    (allow all users : List ℕ) (u : ℕ) (m : Dict Bool)
    → get u (write_each allow all users m)
      ≡ (if member u users && member u all then some (member u allow) else get u m)
unfolding write_each
get-write_each allow all [] u m = refl
get-write_each allow all (i ∷ users) u m =
    get-write_each allow all users u (if member i all then put i (member i allow) m else m)
    ∙ elim (Bool-cases (i == u)) [
      | inl hit ↦
          let at = ==→eq i u hit in
          let a : member i all ≡ member u all = ap (λ j. member j all) at in
          let b : member i allow ≡ member u allow = ap (λ j. member j allow) at in
          ground (arith, get-put i u (member i allow) m, a, b)
      | inr miss ↦ ground (arith, get-put i u (member i allow) m)
    ]

empty-member : (u : ℕ) (xs : List ℕ) → (length xs == 0) ≡ true → member u xs ≡ false
empty-member u [] h = refl
empty-member u (x ∷ xs) h = ground arith

exceptions_at :
    (allow all users : List ℕ) (u : ℕ) (m : Dict Bool)
    → member u users ≡ true
    → get u (if length all == 0 then [] else write_each allow all users (delete_others all m))
      ≡ (if member u all then some (member u allow) else none)
exceptions_at allow all users u m there = elim (Bool-cases (length all == 0)) [
  | inl none_at_all ↦ rw (none_at_all, empty-member u all none_at_all) refl
  | inr some_there ↦ rw some_there (
      get-write_each allow all users u (delete_others all m)
      ∙ ground (arith, get-delete_others all u m, there))
]

-- Whether one of the rules says so.
abbrev pub some_rule : (InputRule → Bool) → List InputRule → Bool
some_rule says [] = false
some_rule says (rule ∷ rules) = says rule || some_rule says rules

abbrev pub allows_everyone : InputRule → Bool
allows_everyone allow_everyone = true
allows_everyone _ = false

abbrev pub allows_contacts : InputRule → Bool
allows_contacts allow_the_contacts = true
allows_contacts _ = false

module _ (check_access_hash : ℕ → ℕ → Bool) (user_id u : ℕ) where
  -- Whether a list names `u`, who is not the user themselves, with a hash that is right.
  abbrev pub named : List InputUser → Bool
  named [] = false
  named (input_self ∷ users) = named users
  named (input_user id hash ∷ users) =
      (id == u && not (id == user_id) && check_access_hash id hash) || named users

  abbrev pub allows_user : InputRule → Bool
  allows_user (allow_these users) = named users
  allows_user _ = false

  abbrev pub refuses_user : InputRule → Bool
  refuses_user (disallow_these users) = named users
  refuses_user _ = false

  member-inputusers_to_uids :
      (users : List InputUser) (result : List ℕ)
      → member u (inputusers_to_uids check_access_hash user_id users result)
        ≡ (member u result || named users)
  unfolding inputusers_to_uids
  member-inputusers_to_uids [] result = ground arith
  member-inputusers_to_uids (input_self ∷ users) result = member-inputusers_to_uids users result
  member-inputusers_to_uids (input_user id hash ∷ users) result = ground (
    arith,
    member-inputusers_to_uids users result,
    member-inputusers_to_uids users (add id result),
    member-add id u result,
  )

  read_rules_lem :
      (rules : List InputRule) (w : Wanted)
      → let r = read_rules check_access_hash user_id rules w in
        (member u r.allow_users ≡ (member u w.allow_users || some_rule allows_user rules))
        × (member u r.disallow_users ≡ (member u w.disallow_users || some_rule refuses_user rules))
        × (r.allow_all ≡ (w.allow_all || some_rule allows_everyone rules))
        × (r.allow_contacts ≡ (w.allow_contacts || some_rule allows_contacts rules))
  unfolding read_rules
  read_rules_lem [] w = (ground arith, ground arith, ground arith, ground arith)
  read_rules_lem (allow_everyone ∷ rules) w =
      let (a, b, c, d) = read_rules_lem rules (record w { allow_all = true }) in
      (a, b, ground (arith, c), d)
  read_rules_lem (allow_the_contacts ∷ rules) w =
      let (a, b, c, d) = read_rules_lem rules (record w { allow_contacts = true }) in
      (a, b, c, ground (arith, d))
  read_rules_lem (allow_these users ∷ rules) w =
      let ids = inputusers_to_uids check_access_hash user_id users w.allow_users in
      let (a, b, c, d) = read_rules_lem rules (record w { allow_users = ids }) in
      (ground (arith, a, member-inputusers_to_uids users w.allow_users), b, c, d)
  read_rules_lem (disallow_these users ∷ rules) w =
      let ids = inputusers_to_uids check_access_hash user_id users w.disallow_users in
      let (a, b, c, d) = read_rules_lem rules (record w { disallow_users = ids }) in
      (a, ground (arith, b, member-inputusers_to_uids users w.disallow_users), c, d)
  read_rules_lem (ignored ∷ rules) w = read_rules_lem rules w

  -- After a user has set a rule, it allows another user who exists if one of the rules that were sent
  -- allows users and names them with the right hash, else it refuses them if one refuses users and
  -- names them so, and else it allows them if one allows everyone, or one allows contacts and they are
  -- one. What the rule said before does not matter.
  pub update_from_tl_decides :
      (key : ℕ) (rules : List InputRule) (users : List ℕ) (old : Option PrivacyRule)
      (contact : Bool)
      → member u users ≡ true
      → decide (update_from_tl check_access_hash user_id key rules users old) u contact ≡ (
          if some_rule allows_user rules
          then true
          else if some_rule refuses_user rules
          then false
          else some_rule allows_everyone rules || some_rule allows_contacts rules && contact)
  unfolding update_from_tl
  update_from_tl_decides key rules users old contact there =
      let w = read_rules check_access_hash user_id rules nothing_wanted in
      let all = union w.allow_users w.disallow_users in
      let (allowed, refused, everyone, contacts) = read_rules_lem rules nothing_wanted in
      rw (exceptions_at w.allow_users all users u (or_new user_id key old).exceptions there, decide)
        (ground (
          arith,
          member-union u w.allow_users w.disallow_users,
          allowed,
          refused,
          everyone,
          contacts,
        ))
