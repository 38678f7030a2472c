-- ===== src/Broker/Leaks.antt =====
-- base_broker.py: a session is heard of under its own ids only, and after it is unsubscribed not at
-- all; the others are not touched.
use piltover.Base.{
  Bool, Bool-cases, Dict, List, Option, arith, false, get, get-put, get-remove, inl, inr, member,
  none, put, remove, some, sym, true, ℕ, ◌&&◌, ◌==◌, ◌||◌, ◌∙◌, ◌≡◌, ◌≢◌,
}
use piltover.Session.{Session}
use piltover.Broker.{Broker, subscribe, unsubscribe, key_id, perm_key_id}
use piltover.Broker.Subs.{
  SetDict, hears, names, hears-add_to, hears-remove_from, hears-add_each, hears-remove_each, add_to,
  remove_from, add_each, remove_each,
}

-- Whether the session under an id is `ref`.
abbrev pub is_under : Dict ℕ → ℕ → ℕ → Bool
is_under sessions j ref = elim (get j sessions) [ none ↦ false | some r ↦ r == ref ]

-- The broker knows `ref` under ids of `s` only.
pub record IsOwn (b : Broker) (ref : ℕ) (s : Session) : Type 0 where
  pub sessions : (j : ℕ) → is_under b.subscribed_sessions j ref ≡ true → (s.session_id == j) ≡ true
  pub users : (j : ℕ) → hears b.subscribed_users j ref ≡ true → names s.user_id j ≡ true
  pub keys :
      (j : ℕ)
      → hears b.subscribed_keys j ref ≡ true
      → (names (key_id s.auth_data) j || names (perm_key_id s.auth_data) j) ≡ true
  pub auths : (j : ℕ) → hears b.subscribed_auths j ref ≡ true → names s.auth_id j ≡ true
  pub channels : (j : ℕ) → hears b.subscribed_channels j ref ≡ true → member j s.channel_ids ≡ true
  pub push : (j : ℕ) → hears b.internal_push_users j ref ≡ true → names s.user_id j ≡ true

-- None of the six dicts of the broker has `ref`.
pub record IsSilent (b : Broker) (ref : ℕ) : Type 0 where
  pub sessions : (j : ℕ) → is_under b.subscribed_sessions j ref ≡ false
  pub users : (j : ℕ) → hears b.subscribed_users j ref ≡ false
  pub keys : (j : ℕ) → hears b.subscribed_keys j ref ≡ false
  pub auths : (j : ℕ) → hears b.subscribed_auths j ref ≡ false
  pub channels : (j : ℕ) → hears b.subscribed_channels j ref ≡ false
  pub push : (j : ℕ) → hears b.internal_push_users j ref ≡ false

-- Two brokers tell a session the same.
pub record SameFor (b c : Broker) (ref : ℕ) : Type 0 where
  pub users : (j : ℕ) → hears b.subscribed_users j ref ≡ hears c.subscribed_users j ref
  pub keys : (j : ℕ) → hears b.subscribed_keys j ref ≡ hears c.subscribed_keys j ref
  pub auths : (j : ℕ) → hears b.subscribed_auths j ref ≡ hears c.subscribed_auths j ref
  pub channels : (j : ℕ) → hears b.subscribed_channels j ref ≡ hears c.subscribed_channels j ref
  pub push : (j : ℕ) → hears b.internal_push_users j ref ≡ hears c.internal_push_users j ref

removed_session :
    (id ref : ℕ) (sessions : Dict ℕ) (j : ℕ)
    → (is_under sessions j ref ≡ true → (id == j) ≡ true)
    → is_under (remove id sessions) j ref ≡ false
removed_session id ref sessions j own = ground (arith, get-remove id j sessions)

added_session :
    (id ref : ℕ) (sessions : Dict ℕ) (j : ℕ)
    → (is_under sessions j ref ≡ true → (id == j) ≡ true)
    → is_under (put id ref sessions) j ref ≡ (id == j)
added_session id ref sessions j own = ground (arith, get-put id j ref sessions)

pub removed :
    (id : Option ℕ) (ref : ℕ) (m : SetDict) (j : ℕ)
    → (hears m j ref ≡ true → names id j ≡ true)
    → hears (remove_from id ref m) j ref ≡ false
removed id ref m j own = ground (arith, hears-remove_from id ref m j ref)

removed_twice :
    (id id' : Option ℕ) (ref : ℕ) (m : SetDict) (j : ℕ)
    → (hears m j ref ≡ true → (names id j || names id' j) ≡ true)
    → hears (remove_from id' ref (remove_from id ref m)) j ref ≡ false
removed_twice id id' ref m j own = ground (
  arith,
  hears-remove_from id ref m j ref,
  hears-remove_from id' ref (remove_from id ref m) j ref,
)

pub removed_each :
    (ids : List ℕ) (ref : ℕ) (m : SetDict) (j : ℕ)
    → (hears m j ref ≡ true → member j ids ≡ true)
    → hears (remove_each ids ref m) j ref ≡ false
removed_each ids ref m j own = ground (arith, hears-remove_each ids ref m j ref)

-- A session that is known under its own ids only is forgotten by `unsubscribe` in all six dicts.
pub unsubscribe-IsSilent :
    (b : Broker) (ref : ℕ) (s : Session) → IsOwn b ref s → IsSilent (unsubscribe b ref s) ref
unfolding unsubscribe add_each
unsubscribe-IsSilent b ref s own = record {
  sessions = λ j. removed_session s.session_id ref b.subscribed_sessions j (own.sessions j);
  users = λ j. removed s.user_id ref b.subscribed_users j (own.users j);
  keys = λ j.
      removed_twice (key_id s.auth_data) (perm_key_id s.auth_data) ref b.subscribed_keys j
        (own.keys j);
  auths = λ j. removed s.auth_id ref b.subscribed_auths j (own.auths j);
  channels = λ j. removed_each s.channel_ids ref b.subscribed_channels j (own.channels j);
  push = λ j. removed s.user_id ref b.internal_push_users j (own.push j);
}

-- `unsubscribe` of one session takes no other out of a set of subscriptions, and adds none.
unsubscribe-SameFor :
    (b : Broker) (ref other : ℕ) (s : Session) → ref ≢ other → SameFor (unsubscribe b ref s) b other
unfolding unsubscribe add_each
unsubscribe-SameFor b ref other s apart = record {
  users = λ j. ground (arith, hears-remove_from s.user_id ref b.subscribed_users j other);
  keys = λ j. ground (
    arith,
    hears-remove_from (key_id s.auth_data) ref b.subscribed_keys j other,
    hears-remove_from (perm_key_id s.auth_data) ref
        (remove_from (key_id s.auth_data) ref b.subscribed_keys) j other,
  );
  auths = λ j. ground (arith, hears-remove_from s.auth_id ref b.subscribed_auths j other);
  channels = λ j. ground (arith, hears-remove_each s.channel_ids ref b.subscribed_channels j other);
  push = λ j. ground (arith, hears-remove_from s.user_id ref b.internal_push_users j other);
}

-- The broker knows `ref` exactly under the ids of `s`, and for internal push if `s` asked for it.
pub record Hears (b : Broker) (ref : ℕ) (s : Session) : Type 0 where
  pub sessions : (j : ℕ) → is_under b.subscribed_sessions j ref ≡ (s.session_id == j)
  pub users : (j : ℕ) → hears b.subscribed_users j ref ≡ names s.user_id j
  pub keys :
      (j : ℕ)
      → hears b.subscribed_keys j ref
        ≡ (names (key_id s.auth_data) j || names (perm_key_id s.auth_data) j)
  pub auths : (j : ℕ) → hears b.subscribed_auths j ref ≡ names s.auth_id j
  pub channels : (j : ℕ) → hears b.subscribed_channels j ref ≡ member j s.channel_ids
  pub push : (j : ℕ) → hears b.internal_push_users j ref ≡ (s.is_internal_push && names s.user_id j)

added :
    (id : Option ℕ) (ref : ℕ) (m : SetDict) (j : ℕ)
    → (hears m j ref ≡ true → names id j ≡ true)
    → hears (add_to id ref m) j ref ≡ names id j
added id ref m j own = ground (arith, hears-add_to id ref m j ref)

added_twice :
    (id id' : Option ℕ) (ref : ℕ) (m : SetDict) (j : ℕ)
    → (hears m j ref ≡ true → (names id j || names id' j) ≡ true)
    → hears (add_to id' ref (add_to id ref m)) j ref ≡ (names id j || names id' j)
added_twice id id' ref m j own =
    ground (arith, hears-add_to id ref m j ref, hears-add_to id' ref (add_to id ref m) j ref)

added_each :
    (ids : List ℕ) (ref : ℕ) (m : SetDict) (j : ℕ)
    → (hears m j ref ≡ true → member j ids ≡ true)
    → hears (add_each ids ref m) j ref ≡ member j ids
added_each ids ref m j own = ground (arith, hears-add_each ids ref m j ref)

-- A session that was known under its own ids only is known, after `subscribe`, exactly under its
-- id, its user, its keys, its authorization and its channels, and for internal push under its user exactly if
-- it asked for that.
pub subscribe-Hears :
    (b : Broker) (ref : ℕ) (s : Session) → IsOwn b ref s → Hears (subscribe b ref s) ref s
unfolding subscribe remove_each
subscribe-Hears b ref s own = record {
  sessions = λ j. elim (Bool-cases s.is_internal_push) [
    | inl on ↦ rw on (added_session s.session_id ref b.subscribed_sessions j (own.sessions j))
    | inr off ↦ rw off (added_session s.session_id ref b.subscribed_sessions j (own.sessions j))
  ];
  users = λ j. ground (arith, added s.user_id ref b.subscribed_users j (own.users j));
  keys = λ j. ground (
    arith,
    added_twice (key_id s.auth_data) (perm_key_id s.auth_data) ref b.subscribed_keys j (own.keys j),
  );
  auths = λ j. ground (arith, added s.auth_id ref b.subscribed_auths j (own.auths j));
  channels =
      λ j. ground (arith, added_each s.channel_ids ref b.subscribed_channels j (own.channels j));
  push = λ j. elim (Bool-cases s.is_internal_push) [
    | inl on ↦ rw on (added s.user_id ref b.internal_push_users j (own.push j))
    | inr off ↦ rw off (removed s.user_id ref b.internal_push_users j (own.push j))
  ];
}

pub Hears-IsOwn : (b : Broker) (ref : ℕ) (s : Session) → Hears b ref s → IsOwn b ref s
Hears-IsOwn b ref s h = record {
  sessions = λ j e. sym (h.sessions j) ∙ e;
  users = λ j e. sym (h.users j) ∙ e;
  keys = λ j e. sym (h.keys j) ∙ e;
  auths = λ j e. sym (h.auths j) ∙ e;
  channels = λ j e. sym (h.channels j) ∙ e;
  push = λ j e. ground (arith, h.push j);
}

-- Whatever the broker knew, a session on internal pushes gets those of its user after `subscribe`.
pub subscribe_pushes :
    (b : Broker) (ref : ℕ) (s : Session) (j : ℕ)
    → s.is_internal_push ≡ true
    → names s.user_id j ≡ true
    → hears (subscribe b ref s).internal_push_users j ref ≡ true
unfolding subscribe
subscribe_pushes b ref s j on own =
    rw on (ground (arith, own, hears-add_to s.user_id ref b.internal_push_users j ref))
