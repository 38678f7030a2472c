-- ===== src/Tests/Broker.antt =====
-- Concrete inputs for the theorems on piltover/message_brokers.
use piltover.Base.{[], member, none, some, true, ◌||◌, ◌∷◌, ◌≡◌}
use piltover.Session.{AuthData, Session, new_session}
use piltover.Session.Flush.{Server}
use piltover.Broker.{Broker, cleanup, subscribe, unsubscribe}
use piltover.Broker.Leaks.{
  IsOwn, IsSilent, Hears, unsubscribe-IsSilent, subscribe-Hears, Hears-IsOwn,
}
use piltover.Broker.Routing.Targets.{
  Addressees, hears_any, without, collect_send_to, member-collect_send_to,
}
use piltover.Broker.Routing.Deliver.{Heap, Payload}

abbrev auth : AuthData
auth = record { auth_key_id = some 77; auth_key = none; perm_auth_key_id = some 78 }

-- A session of user 3 in two channels, and one of user 4.
abbrev first : Session
first = record (new_session 5 (some 1) (some auth)) {
  user_id = some 3;
  auth_id = some 30;
  channel_ids = 100 ∷ 101 ∷ [];
}

abbrev second : Session
second = record (new_session 6 (some 2) none) { user_id = some 4; auth_id = some 40 }

cleanup-IsOwn : IsOwn cleanup 1 first
unfolding cleanup
cleanup-IsOwn = record {
  sessions = λ j e. cc;
  users = λ j e. cc;
  keys = λ j e. cc;
  auths = λ j e. cc;
  channels = λ j e. cc;
  push = λ j e. cc;
}

subscribe-Hears_example : Hears (subscribe cleanup 1 first) 1 first
subscribe-Hears_example = subscribe-Hears cleanup 1 first cleanup-IsOwn

abbrev known : Broker
known = subscribe (subscribe cleanup 1 first) 2 second

unsubscribe-IsSilent_example : IsSilent (unsubscribe (subscribe cleanup 1 first) 1 first) 1
unsubscribe-IsSilent_example =
    unsubscribe-IsSilent (subscribe cleanup 1 first) 1 first
      (Hears-IsOwn _ 1 first (subscribe-Hears cleanup 1 first cleanup-IsOwn))

abbrev addressees : Addressees
addressees = record {
  users = some (4 ∷ []);
  key_ids = none;
  channel_ids = some (100 ∷ []);
  auth_ids = some (30 ∷ 40 ∷ []);
  ignore_auth_id = some (40 ∷ []);
}

member-collect_send_to_example : member 1 (collect_send_to known addressees) ≡ (
    hears_any known.subscribed_users (4 ∷ []) 1
    || (hears_any known.subscribed_keys [] 1
        || (hears_any known.subscribed_channels (100 ∷ []) 1
            || hears_any known.subscribed_auths (without (40 ∷ []) (30 ∷ 40 ∷ [])) 1)))
member-collect_send_to_example = member-collect_send_to known addressees 1

abbrev payload : Payload
payload = record {
  outgoing = record { tlid = 1; is_updates = true; write = λ seq. seq ∷ [] };
  deliverable = true;
  immediate = true;
}

abbrev server : Server
server = record { make_salt = λ key id now. key; salt_key = 3 ∷ []; clock = λ id. 7000000 }

abbrev heap : Heap
heap = record {
  sessions = (1, first) ∷ (2, second) ∷ [];
  wires = (1, record { room = 9; sent = [] }) ∷ [];
}
