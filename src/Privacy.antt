-- ===== src/Privacy.antt =====
-- piltover/db/models/privacy_rule.py: whether a user may see something of another one, for one question
-- and for many at once. The cache is that of the `aiocache` package: its operations are a parameter.
pub mod Agreement
pub mod Leftover
pub mod Bulk
pub mod Update
use piltover.Base.{
  Bool, Dict, List, Option, [], add, discard, false, get, if◌then◌else◌, length, member, none, not,
  some, true, ℕ, ◌&&◌, ◌++◌, ◌==◌, ◌||◌, ◌∷◌,
}

-- A rule with its exceptions: whom it allows or not, by the user's id.
pub record PrivacyRule : Type 0 where
  pub user_id : ℕ
  pub key : ℕ
  pub allow_all : Bool
  pub allow_contacts : Bool
  pub version : ℕ
  pub exceptions : Dict Bool

-- The rules, and the contacts as pairs of owner and target.
pub record Tables : Type 0 where
  pub rules : List PrivacyRule
  pub contacts : List (ℕ × ℕ)

abbrev pub phone_number : ℕ
phone_number = 6

abbrev pub default_allow_all : ℕ → Bool
default_allow_all key = not (key == phone_number)

-- `cache_key(this_user, rule_user, key, version)`
pub record CacheKey : Type 0 where
  pub this_user : ℕ
  pub rule_user : ℕ
  pub key : ℕ
  pub version : ℕ

-- `get(key)` and `set(key, value)`
pub record CacheOps (Cache : Type 0) : Type 0 where
  pub cache_get : CacheKey → Cache → Option Bool
  pub cache_set : CacheKey → Bool → Cache → Cache

abbrev pub cache_key : ℕ → PrivacyRule → CacheKey
cache_key this_user rule = record {
  this_user = this_user;
  rule_user = rule.user_id;
  key = rule.key;
  version = rule.version;
}

abbrev pub is_of : ℕ → ℕ → PrivacyRule → Bool
is_of user_id key rule = rule.user_id == user_id && rule.key == key

-- `get_or_none(user_id=…, key=…)`
unfoldable pub find_rule : ℕ → ℕ → List PrivacyRule → Option PrivacyRule
find_rule user_id key [] = none
find_rule user_id key (rule ∷ rules) =
    if is_of user_id key rule then some rule else find_rule user_id key rules

-- `Contact.filter(owner_id=…, target_id=…).exists()`
unfoldable pub is_contact : ℕ → ℕ → List (ℕ × ℕ) → Bool
is_contact owner_id target_id [] = false
is_contact owner_id target_id ((owner, target) ∷ contacts) =
    let rest = is_contact owner_id target_id contacts in
    owner == owner_id && target == target_id || rest

-- What a rule says of a user, who is a contact of its owner or not.
abbrev pub decide : PrivacyRule → ℕ → Bool → Bool
decide rule user_id contact = elim (get user_id rule.exceptions) [
  | some allow ↦ allow
  | none ↦ rule.allow_all || rule.allow_contacts && contact
]

-- The answers of `has_access_to_bulk`: for a user and a key, if there is one.
abbrev pub Results : Type 0
Results = ℕ → ℕ → Option Bool

abbrev pub set_result : ℕ → ℕ → Bool → Results → Results
set_result user_id key allowed r u k = if u == user_id && k == key then some allowed else r u k

-- `results[user_id] = {key: True for key in keys}`
abbrev pub set_all : ℕ → List ℕ → Results → Results
set_all user_id keys r u k =
    if u == user_id then (if member k keys then some true else none) else r u k

-- One of the users that are asked about; `bot` only if it is given as an object.
pub record Target : Type 0 where
  pub id : ℕ
  pub bot : Bool

unfoldable pub target_ids : List Target → List ℕ
target_ids [] = []
target_ids (t ∷ targets) = add t.id (target_ids targets)

unfoldable pub discard_bots : List Target → List ℕ → List ℕ
discard_bots [] ids = ids
discard_bots (t ∷ targets) ids = discard_bots targets (if t.bot then discard t.id ids else ids)

unfoldable allow_bots : List Target → List ℕ → Results → Results
allow_bots [] keys r = r
allow_bots (t ∷ targets) keys r = allow_bots targets keys (if t.bot then set_all t.id keys r else r)

-- The rules of the users and keys.
unfoldable pub selected : List ℕ → List ℕ → List PrivacyRule → List PrivacyRule
selected ids keys [] = []
selected ids keys (rule ∷ rules) =
    let rest = selected ids keys rules in
    if member rule.user_id ids && member rule.key keys then rule ∷ rest else rest

abbrev same_pair : ℕ × ℕ → ℕ × ℕ → Bool
same_pair (a, b) (c, d) = a == c && b == d

unfoldable pub pairs_of : ℕ → List ℕ → List (ℕ × ℕ)
pairs_of user_id [] = []
pairs_of user_id (key ∷ keys) = (user_id, key) ∷ pairs_of user_id keys

unfoldable pub pairs : List ℕ → List ℕ → List (ℕ × ℕ)
unfolding pairs_of
pairs [] keys = []
pairs (user_id ∷ ids) keys = pairs_of user_id keys ++ pairs ids keys

unfoldable pub without_rule : List PrivacyRule → List (ℕ × ℕ) → List (ℕ × ℕ)
unfolding find_rule
without_rule rules [] = []
without_rule rules ((user_id, key) ∷ leftover) =
    let rest = without_rule rules leftover in
    elim (find_rule user_id key rules) [ none ↦ (user_id, key) ∷ rest | some _ ↦ rest ]

-- The users without a rule; `user_id in None` is a `TypeError`, here `none`.
unfoldable pub default_each : Option (List ℕ) → List (ℕ × ℕ) → Results → Option Results
default_each contacts [] r = some r
default_each contacts ((user_id, key) ∷ leftover) r =
    if default_allow_all key
    then default_each contacts leftover (set_result user_id key true r)
    else elim contacts [
      | none ↦ none
      | some owners ↦
          default_each contacts leftover (set_result user_id key (member user_id owners) r)
    ]

-- `Contact.filter(owner_id__in=user_ids, target_id=this_user_id)`, by owner
unfoldable owners_of : ℕ → List ℕ → List (ℕ × ℕ) → List ℕ
owners_of this_user ids [] = []
owners_of this_user ids ((owner, target) ∷ contacts) =
    let rest = owners_of this_user ids contacts in
    if target == this_user && member owner ids then owner ∷ rest else rest

module _ {Cache : Type 0} (ops : CacheOps Cache) where
  unfoldable pub has_access_to : Tables → ℕ → ℕ → ℕ → Cache → Bool × Cache
  unfolding find_rule is_contact
  has_access_to t current_id target_id key c =
      let contact = is_contact target_id current_id t.contacts in
      if current_id == target_id then (true, c) else elim (find_rule target_id key t.rules) [
        | none ↦ ((if default_allow_all key then true else contact), c)
        | some rule ↦ elim (ops.cache_get (cache_key current_id rule) c) [
          | some allowed ↦ (allowed, c)
          | none ↦
              let allowed = decide rule current_id contact in
              (allowed, ops.cache_set (cache_key current_id rule) allowed c)
        ]
      ]

  unfoldable pub take_cached : ℕ → Cache → List PrivacyRule → Results → Results
  take_cached this_user c [] r = r
  take_cached this_user c (rule ∷ rules) r =
      take_cached this_user c rules (elim (ops.cache_get (cache_key this_user rule) c) [
        | none ↦ r
        | some allowed ↦ set_result rule.user_id rule.key allowed r
      ])

  unfoldable pub not_cached : ℕ → Cache → List PrivacyRule → List PrivacyRule
  not_cached this_user c [] = []
  not_cached this_user c (rule ∷ rules) =
      let rest = not_cached this_user c rules in
      elim (ops.cache_get (cache_key this_user rule) c) [ none ↦ rule ∷ rest | some _ ↦ rest ]

  -- What is decided is cached.
  unfoldable pub decide_each : ℕ → List ℕ → List PrivacyRule → Results → Cache → Results × Cache
  decide_each this_user owners [] r c = (r, c)
  decide_each this_user owners (rule ∷ rules) r c =
      let allowed = decide rule this_user (member rule.user_id owners) in
      decide_each this_user owners rules (set_result rule.user_id rule.key allowed r)
        (ops.cache_set (cache_key this_user rule) allowed c)

  -- The contacts are read if they are needed for a rule and were not given.
  abbrev known_owners : Tables → ℕ → List ℕ → List PrivacyRule → Option (List ℕ) → Option (List ℕ)
  known_owners t this_user ids rules (some owners) = some owners
  known_owners t this_user ids [] none = none
  known_owners t this_user ids (_ ∷ _) none = some (owners_of this_user ids t.contacts)

  abbrev or_none : Option (List ℕ) → List ℕ
  or_none none = []
  or_none (some owners) = owners

  unfoldable pub answer_rest :
      Tables → ℕ → List ℕ → List ℕ → Option (List ℕ) → Results → Cache → Option (Results × Cache)
  unfolding selected take_cached not_cached decide_each pairs without_rule default_each owners_of
  answer_rest t this_user ids keys contacts r c =
      let rules = selected ids keys t.rules in
      let fresh = not_cached this_user c rules in
      let owners = known_owners t this_user ids fresh contacts in
      let (r', c') =
        decide_each this_user (or_none owners) fresh (take_cached this_user c rules r) c in
      elim (default_each owners (without_rule rules (pairs ids keys)) r') [
        | none ↦ none
        | some r'' ↦ some (r'', c')
      ]

  unfoldable pub has_access_to_bulk :
      Tables → List Target → ℕ → List ℕ → Option (List ℕ) → Cache → Option (Results × Cache)
  unfolding target_ids discard_bots allow_bots answer_rest
  has_access_to_bulk t targets this_user keys contacts c =
      let all = target_ids targets in
      let own : Results =
        if member this_user all then set_all this_user keys (λ _ _. none) else (λ _ _. none) in
      let ids = discard_bots targets (discard this_user all) in
      let rest = answer_rest t this_user ids keys contacts (allow_bots targets keys own) c in
      if length keys == 0
      then some ((λ _ _. none), c)
      else if length ids == 0
      then some (allow_bots targets keys own, c)
      else rest
