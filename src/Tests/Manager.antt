-- ===== src/Tests/Manager.antt =====
-- Concrete inputs for the theorems on piltover/session/session_manager.py and on `refresh_auth_maybe`.
use piltover.Base.{[], false, member, none, refl, some, true, ◌||◌, ◌∷◌, ◌≡◌}
use piltover.Session.{AuthData, Session, new_session}
use piltover.Broker.{Broker, cleanup, unsubscribe}
use piltover.Broker.Subs.{hears}
use piltover.Broker.Routing.Targets.{hears_any, without, collect_send_to}
use piltover.Manager.Send.{one, many, Targets, Message, to_users, send, read_message, send_reaches}
use piltover.Manager.{Manager, created, lookup}
use piltover.Session.Flush.{Server}
use piltover.Session.Outbound.{Outgoing}
use piltover.Manager.Dispatch.{
  World, set_session_internal_push, process_message, IsPushed, set_session_internal_push-IsPushed,
}
use piltover.Manager.Auth.{Answers, reset_auth, refresh_auth_maybe}
use piltover.Manager.Auth.Follows.{Follows, refresh_auth_maybe-Follows}
use piltover.Manager.Auth.Push.{reset_auth_keeps_push}

abbrev auth : AuthData
auth = record { auth_key_id = some 77; auth_key = none; perm_auth_key_id = some 78 }

abbrev session : Session
session = record (new_session 5 none (some auth)) {
  user_id = some 3;
  auth_id = some 30;
  channel_ids = 100 ∷ [];
}

abbrev empty : Manager
empty = record { sessions = []; heap = []; next_ref = 0; broker = cleanup; leaving = [] }

-- A manager with session 5 of key 77.
abbrev with_one : Manager
with_one = created empty 5 1 auth

abbrev single : Manager
single = record {
  sessions = record { key = some 77; session_id = 5; ref = 0 } ∷ [];
  heap = (0, session) ∷ [];
  next_ref = 1;
  broker = cleanup;
  leaving = [];
}

-- The database knows user 3 under the key, in channels 100 and 101.
abbrev database : Answers
database = record {
  auth_data = some auth;
  authorization =
      some (record { id = 30; user_id = 3; is_bot = false; mfa_pending = false; upd_seq = 8 });
  channel_ids = λ user_id. 100 ∷ 101 ∷ [];
}

abbrev newcomer : Session
newcomer = new_session 5 (some 1) (some auth)

newcomer-Follows : Follows cleanup 0 newcomer.user_id newcomer.auth_id newcomer.channel_ids
unfolding cleanup
newcomer-Follows = record { users = λ j. refl; auths = λ j. refl; channels = λ j. refl }

abbrev logged_in : Session × Broker
logged_in = elim (refresh_auth_maybe 0 false database 400000000 newcomer cleanup) [
  | none ↦ (newcomer, cleanup)
  | some r ↦ r
]

refresh_auth_maybe-Follows_example :
    Follows logged_in.1 0 logged_in.0.user_id logged_in.0.auth_id logged_in.0.channel_ids
unfolding refresh_auth_maybe
refresh_auth_maybe-Follows_example =
    refresh_auth_maybe-Follows 0 false database 400000000 newcomer logged_in.0 cleanup logged_in.1
      newcomer-Follows refl

-- User 3 gets internal pushes.
abbrev pushing : Broker
pushing = record cleanup { internal_push_users = (3, 0 ∷ []) ∷ [] }

reset_auth_keeps_push_example :
    let (s', b') = reset_auth 0 session pushing in
    hears (unsubscribe b' 0 s').internal_push_users 3 0 ≡ hears pushing.internal_push_users 3 0
reset_auth_keeps_push_example = reset_auth_keeps_push 0 session pushing 3

-- A message for user 3, for two channels, and for an authorization that is not ignored.
abbrev targets : Targets
targets = record {
  user_id = some (many (3 ∷ []));
  key_id = none;
  channel_id = some (many (100 ∷ 101 ∷ []));
  auth_id = some (one 30);
  ignore_auth_id = some (one 31);
}

abbrev message : Message
message = to_users (record {
  users = some (3 ∷ []);
  key_ids = none;
  channel_ids = some (100 ∷ 101 ∷ []);
  auth_ids = some (30 ∷ []);
  ignore_auth_id = some (31 ∷ []);
})

send_reaches_example : member 0 (collect_send_to pushing (read_message message)) ≡ (
    hears_any pushing.subscribed_users (3 ∷ []) 0
    || (hears_any pushing.subscribed_keys [] 0
        || (hears_any pushing.subscribed_channels (100 ∷ 101 ∷ []) 0
            || hears_any pushing.subscribed_auths (without (31 ∷ []) (30 ∷ [])) 0)))
unfolding send
send_reaches_example = send_reaches pushing targets message 0 refl

-- Session 5 of key 77, which the worker registered.
abbrev world : World
world = record {
  manager = record empty {
    sessions = record { key = some 77; session_id = 5; ref = 0 } ∷ [];
    heap = (0, session) ∷ [];
    next_ref = 1;
  };
  wires = [];
}

abbrev server : Server
server = record { make_salt = λ key id now. key; salt_key = 3 ∷ []; clock = λ id. 7000000 }

abbrev too_long : Outgoing
too_long = record { tlid = 1; is_updates = true; write = λ seq. seq ∷ [] }

set_session_internal_push-IsPushed_example :
    (w' : World) × (process_message server 400000000 0 database too_long
        (set_session_internal_push 77 5)
        world
      ≡ some w')
    × IsPushed 0 w'
unfolding lookup
set_session_internal_push-IsPushed_example =
    set_session_internal_push-IsPushed server 400000000 0 database too_long world 77 5 0 session
      refl refl (λ gone. cc)
