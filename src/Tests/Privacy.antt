-- ===== src/Tests/Privacy.antt =====
-- Concrete inputs for the theorems on piltover/db/models/privacy_rule.py.
use piltover.Base.{
  Bool, List, Option, [], false, if◌then◌else◌, none, refl, some, true, ℕ, ◌&&◌, ◌==◌, ◌||◌, ◌∷◌,
  ◌≡◌,
}
use piltover.Privacy.{
  find_rule, target_ids, is_contact, CacheKey, CacheOps, Results, Tables, Target, decide,
  has_access_to, has_access_to_bulk,
}
use piltover.Privacy.Bulk.{has_access_to_bulk_agrees}
use piltover.Privacy.Update.{
  InputRule, allow_these, disallow_these, input_self, input_user, update_from_tl,
}
use piltover.Privacy.Update.Decides.{
  some_rule, allows_user, refuses_user, allows_everyone, allows_contacts, update_from_tl_decides,
}

-- A cache that keeps only the last answer.
abbrev same_key : CacheKey → CacheKey → Bool
same_key a b =
    a.this_user == b.this_user
    && a.rule_user == b.rule_user
    && a.key == b.key
    && a.version == b.version

abbrev last_answer : CacheOps (Option (CacheKey × Bool))
last_answer = record {
  cache_get = λ k c. elim c [ none ↦ none | some (j, v) ↦ if same_key j k then some v else none ];
  cache_set = λ k v c. some (k, v);
}

-- User 2 shows the key 0 to contacts and never to user 4; user 3 has no rule.
abbrev tables : Tables
tables = record {
  rules =
      record {
        user_id = 2;
        key = 0;
        allow_all = false;
        allow_contacts = true;
        version = 1;
        exceptions = (4, false) ∷ [];
      }
      ∷ [];
  contacts = (2, 1) ∷ [];
}

abbrev targets : List Target
targets = record { id = 2; bot = false } ∷ record { id = 3; bot = true } ∷ []

has_access_to_bulk_agrees_example :
    (res : Results) × (c' : Option (CacheKey × Bool)) × (has_access_to_bulk last_answer tables
        targets 1
        (0 ∷ 6 ∷ [])
        (some (2 ∷ []))
        none
      ≡ some (res, c'))
    × (res 2 0 ≡ some (has_access_to last_answer tables 1 2 0 none).0)
unfolding find_rule target_ids is_contact
has_access_to_bulk_agrees_example =
    has_access_to_bulk_agrees last_answer tables targets 1 2 0 (0 ∷ 6 ∷ []) (2 ∷ []) none (refl, tt)
      refl refl refl refl refl

abbrev wishes : List InputRule
wishes = allow_these (input_user 2 7 ∷ input_self ∷ []) ∷ disallow_these (input_user 4 7 ∷ []) ∷ []

abbrev hash_is_seven : ℕ → ℕ → Bool
hash_is_seven id hash = hash == 7

update_from_tl_decides_example :
    decide (update_from_tl hash_is_seven 1 0 wishes (2 ∷ 4 ∷ []) none) 4 true ≡ (
      if some_rule (allows_user hash_is_seven 1 4) wishes
      then true
      else if some_rule (refuses_user hash_is_seven 1 4) wishes
      then false
      else some_rule allows_everyone wishes || some_rule allows_contacts wishes && true)
update_from_tl_decides_example =
    update_from_tl_decides hash_is_seven 1 4 0 wishes (2 ∷ 4 ∷ []) none true refl
