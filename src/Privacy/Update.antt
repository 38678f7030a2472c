-- ===== src/Privacy/Update.antt =====
-- privacy_rule.py: a user sets a rule, and reads it back.
pub mod Decides
use piltover.Base.{
  Bool, Dict, List, Option, [], add, false, if◌then◌else◌, length, member, none, not, put, some,
  true, union, ℕ, ◌&&◌, ◌++◌, ◌+◌, ◌==◌, ◌∷◌,
}
use piltover.Privacy.{PrivacyRule}

-- `InputUserSelf`, and `InputUser` or `InputPeerUser` with its access hash
pub data InputUser : Type 0 where
  input_self : InputUser
  input_user : ℕ → ℕ → InputUser

-- The rules that are read; all others are passed over.
pub data InputRule : Type 0 where
  allow_everyone : InputRule
  allow_the_contacts : InputRule
  allow_these : List InputUser → InputRule
  disallow_these : List InputUser → InputRule
  ignored : InputRule

-- What the rules add up to.
pub record Wanted : Type 0 where
  pub allow_all : Bool
  pub allow_contacts : Bool
  pub allow_users : List ℕ
  pub disallow_users : List ℕ

abbrev pub nothing_wanted : Wanted
nothing_wanted = record {
  allow_all = false;
  allow_contacts = false;
  allow_users = [];
  disallow_users = [];
}

unfoldable pub delete_others : List ℕ → Dict Bool → Dict Bool
delete_others ids [] = []
delete_others ids ((id, allow) ∷ exceptions) =
    let rest = delete_others ids exceptions in if member id ids then (id, allow) ∷ rest else rest

-- For each of the users that exist, the exception is made or changed.
unfoldable pub write_each : List ℕ → List ℕ → List ℕ → Dict Bool → Dict Bool
write_each allow_users all_users [] exceptions = exceptions
write_each allow_users all_users (id ∷ users) exceptions =
    write_each allow_users all_users users
      (if member id all_users then put id (member id allow_users) exceptions else exceptions)

abbrev pub or_new : ℕ → ℕ → Option PrivacyRule → PrivacyRule
or_new user_id key (some rule) = rule
or_new user_id key none = record {
  user_id = user_id;
  key = key;
  allow_all = false;
  allow_contacts = false;
  version = 0;
  exceptions = [];
}

-- `check_access_hash` is a parameter: whether the hash is that of the user for the session.
module _ (check_access_hash : ℕ → ℕ → Bool) where
  unfoldable pub inputusers_to_uids : ℕ → List InputUser → List ℕ → List ℕ
  inputusers_to_uids user_id [] result = result
  inputusers_to_uids user_id (input_self ∷ users) result = inputusers_to_uids user_id users result
  inputusers_to_uids user_id (input_user id hash ∷ users) result =
      inputusers_to_uids user_id users
        (if not (id == user_id) && check_access_hash id hash then add id result else result)

  unfoldable pub read_rules : ℕ → List InputRule → Wanted → Wanted
  unfolding inputusers_to_uids
  read_rules user_id [] w = w
  read_rules user_id (allow_everyone ∷ rules) w =
      read_rules user_id rules (record w { allow_all = true })
  read_rules user_id (allow_the_contacts ∷ rules) w =
      read_rules user_id rules (record w { allow_contacts = true })
  read_rules user_id (allow_these users ∷ rules) w =
      read_rules user_id rules
        (record w { allow_users = inputusers_to_uids user_id users w.allow_users })
  read_rules user_id (disallow_these users ∷ rules) w =
      read_rules user_id rules
        (record w { disallow_users = inputusers_to_uids user_id users w.disallow_users })
  read_rules user_id (ignored ∷ rules) w = read_rules user_id rules w

  -- `update_or_create`, then the exceptions and the version. `users` are the ids of all users.
  unfoldable pub update_from_tl : ℕ → ℕ → List InputRule → List ℕ → Option PrivacyRule → PrivacyRule
  unfolding read_rules delete_others write_each
  update_from_tl user_id key rules users old =
      let w = read_rules user_id rules nothing_wanted in
      let rule = or_new user_id key old in
      let all_users = union w.allow_users w.disallow_users in
      record rule {
        allow_all = w.allow_all;
        allow_contacts = w.allow_contacts;
        version = rule.version + 1;
        exceptions =
            if length all_users == 0
            then []
            else write_each w.allow_users all_users users (delete_others all_users rule.exceptions);
      }

pub data TlRule : Type 0 where
  value_allow_all : TlRule
  value_allow_contacts : TlRule
  value_disallow_all : TlRule
  value_allow_users : List ℕ → TlRule
  value_disallow_users : List ℕ → TlRule

abbrev with_allow : Bool → Dict Bool → List ℕ
with_allow wanted [] = []
with_allow wanted ((id, allow) ∷ exceptions) =
    let rest = with_allow wanted exceptions in
    if (if wanted then allow else not allow) then id ∷ rest else rest

abbrev unless_empty : (List ℕ → TlRule) → List ℕ → List TlRule
unless_empty rule [] = []
unless_empty rule (id ∷ ids) = rule (id ∷ ids) ∷ []

-- Every exception is of a user.
unfoldable to_tl_rules : PrivacyRule → List TlRule
to_tl_rules rule =
    (if rule.allow_all
      then value_allow_all ∷ []
      else if rule.allow_contacts
      then value_disallow_all ∷ value_allow_contacts ∷ []
      else value_disallow_all ∷ [])
    ++ unless_empty value_allow_users (with_allow true rule.exceptions)
    ++ unless_empty value_disallow_users (with_allow false rule.exceptions)
