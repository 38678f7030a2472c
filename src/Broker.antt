-- ===== src/Broker.antt =====
-- piltover/message_brokers/base_broker.py: which sessions hear of which users, keys, authorizations
-- and channels. A session is known by its identity, a number; its fields stand in a heap.
pub mod Subs
pub mod Leaks
pub mod Routing
use piltover.Base.{Dict, List, Option, [], if◌then◌else◌, none, put, remove, some, ℕ}
use piltover.Session.{AuthData, Session}
use piltover.Broker.Subs.{SetDict, add_to, remove_from, add_each, remove_each}

pub record Broker : Type 0 where
  pub subscribed_users : SetDict
  pub subscribed_sessions : Dict ℕ
  pub subscribed_keys : SetDict
  pub subscribed_auths : SetDict
  pub subscribed_channels : SetDict
  pub internal_push_users : SetDict

-- `_cleanup`, with which `startup` and `shutdown` begin and end
unfoldable pub cleanup : Broker
cleanup = record {
  subscribed_users = [];
  subscribed_sessions = [];
  subscribed_keys = [];
  subscribed_auths = [];
  subscribed_channels = [];
  internal_push_users = [];
}

unfoldable pub subscribe_user : Broker → Option ℕ → ℕ → Broker
subscribe_user b id s = record b { subscribed_users = add_to id s b.subscribed_users }

unfoldable subscribe_key : Broker → Option ℕ → ℕ → Broker
subscribe_key b id s = record b { subscribed_keys = add_to id s b.subscribed_keys }

unfoldable pub subscribe_auth : Broker → Option ℕ → ℕ → Broker
subscribe_auth b id s = record b { subscribed_auths = add_to id s b.subscribed_auths }

unfoldable subscribe_internal_push : Broker → Option ℕ → ℕ → Broker
subscribe_internal_push b id s = record b {
  internal_push_users = add_to id s b.internal_push_users;
}

unfoldable pub unsubscribe_user : Broker → Option ℕ → ℕ → Broker
unsubscribe_user b id s = record b { subscribed_users = remove_from id s b.subscribed_users }

unfoldable unsubscribe_key : Broker → Option ℕ → ℕ → Broker
unsubscribe_key b id s = record b { subscribed_keys = remove_from id s b.subscribed_keys }

unfoldable pub unsubscribe_auth : Broker → Option ℕ → ℕ → Broker
unsubscribe_auth b id s = record b { subscribed_auths = remove_from id s b.subscribed_auths }

unfoldable unsubscribe_internal_push : Broker → Option ℕ → ℕ → Broker
unsubscribe_internal_push b id s = record b {
  internal_push_users = remove_from id s b.internal_push_users;
}

-- The early return on two empty lists changes nothing.
unfoldable pub channels_diff_update : Broker → ℕ → List ℕ → List ℕ → Broker
channels_diff_update b s to_delete to_add = record b {
  subscribed_channels = add_each to_add s (remove_each to_delete s b.subscribed_channels);
}

abbrev pub key_id : Option AuthData → Option ℕ
key_id none = none
key_id (some a) = a.auth_key_id

abbrev pub perm_key_id : Option AuthData → Option ℕ
perm_key_id none = none
perm_key_id (some a) = a.perm_auth_key_id

-- `ref` is the identity of the session, `s` its fields.
unfoldable pub subscribe : Broker → ℕ → Session → Broker
unfolding subscribe_user subscribe_key subscribe_auth channels_diff_update subscribe_internal_push
    unsubscribe_internal_push
subscribe b ref s =
    let b₁ = record b { subscribed_sessions = put s.session_id ref b.subscribed_sessions } in
    let b₂ = subscribe_user b₁ s.user_id ref in
    let b₃ = subscribe_key b₂ (key_id s.auth_data) ref in
    let b₄ = subscribe_key b₃ (perm_key_id s.auth_data) ref in
    let b₅ = subscribe_auth b₄ s.auth_id ref in
    let b₆ = channels_diff_update b₅ ref [] s.channel_ids in
    if s.is_internal_push
    then subscribe_internal_push b₆ s.user_id ref
    else unsubscribe_internal_push b₆ s.user_id ref

unfoldable pub unsubscribe : Broker → ℕ → Session → Broker
unfolding unsubscribe_user unsubscribe_key unsubscribe_auth channels_diff_update
    unsubscribe_internal_push
unsubscribe b ref s =
    let b₁ = record b { subscribed_sessions = remove s.session_id b.subscribed_sessions } in
    let b₂ = unsubscribe_user b₁ s.user_id ref in
    let b₃ = unsubscribe_key b₂ (key_id s.auth_data) ref in
    let b₄ = unsubscribe_key b₃ (perm_key_id s.auth_data) ref in
    let b₅ = unsubscribe_auth b₄ s.auth_id ref in
    let b₆ = channels_diff_update b₅ ref s.channel_ids [] in
    unsubscribe_internal_push b₆ s.user_id ref
