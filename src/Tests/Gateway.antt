-- ===== src/Tests/Gateway.antt =====
-- Concrete inputs for the theorems on piltover/gateway.
mod OneEntry
use piltover.Base.{
  All, Bool, List, Option, [], arith, false, length, min, none, refl, some, true, ℕ, ◌&&◌, ◌*◌,
  ◌++◌, ◌==◌, ◌^◌, ◌∷◌, ◌≡◌,
}
use piltover.Base.Ints.{pos}
use piltover.Tl.Codec.{Bytes}
use piltover.Session.{AuthData, Session, new_session}
use piltover.Session.MsgId.{seconds}
use piltover.Session.Flush.{Server, Wire}
use piltover.Session.Checks.{Packet}
use piltover.Session.Outbound.{Outgoing}
use piltover.Broker.{cleanup}
use piltover.Manager.{lookup}
use piltover.Gateway.{LruOps, World}
use piltover.Gateway.Action.{done}
use piltover.Gateway.Requests.{
  Env, FutureSalt, destroy_session, future_salts, invoke_after_msg, not_queued, ping,
}
use piltover.Gateway.Worker.{Lookup}
use piltover.Gateway.Process.{propagate}
use piltover.Gateway.Process.Completes.{Completed, propagate_completes}
use piltover.Gateway.Handlers.{at_least_one, get_future_salts}
use piltover.Gateway.Handlers.Promises.{Kept, get_future_salts-Kept}
use piltover.Gateway.Tracks.{TracksWorld}
use piltover.Gateway.Receive.{Intake, Encrypted, recv_packet, single}
use piltover.Gateway.Receive.Keeps.{recv_packet-Tracks}
use piltover.Gateway.SendLoop.{drain}
use piltover.Gateway.SendLoop.Spins.{QuietHeap, refs_of}
use piltover.Gateway.SendLoop.Destroyed.{destroy_session_spins}
use piltover.Tests.Gateway.OneEntry.{one_entry}

abbrev same_pair : ℕ × ℕ → ℕ × ℕ → Bool
same_pair (a, b) (c, d) = a == c && b == d

abbrev same_id : ℕ → ℕ → Bool
same_id a b = a == b

abbrev Sessions : Type 0
Sessions = Option ((ℕ × ℕ) × ℕ)

abbrev Keys : Type 0
Keys = Option (ℕ × Bytes)

abbrev sessions : LruOps (ℕ × ℕ) ℕ Sessions
sessions = one_entry same_pair

abbrev keys : LruOps ℕ Bytes Keys
keys = one_entry same_id

abbrev auth : AuthData
auth = record { auth_key_id = some 77; auth_key = some (9 ∷ []); perm_auth_key_id = some 77 }

abbrev session : Session
session = new_session 5 (some 1) (some auth)

abbrev keygen : Session
keygen = new_session 0 (some 1) none

-- A connection with one session, whose key is in no table any more.
abbrev world : World Sessions Keys
world = record {
  client = record {
    id = 1;
    active_sessions = some ((77, 5), 0);
    active_keys = some (77, 9 ∷ []);
    rejected_auth_keys = [];
    disconnect_timeout = none;
    keygen_session = 9;
  };
  manager = record {
    sessions = record { key = some 77; session_id = 5; ref = 0 } ∷ [];
    heap = (0, session) ∷ (9, keygen) ∷ [];
    next_ref = 10;
    broker = cleanup;
    leaving = [];
  };
  unknown_auth_key_ids = none;
  tables = record { keys = []; temp_keys = [] };
}

-- The worker takes no task, and calls that are waited for do not end.
abbrev env : Env
env = record {
  time = 3600000000;
  stored = 0;
  ends_in_time = λ _. false;
  kiq = λ _. not_queued;
  max_layer = 200;
  make_salt = λ key id number. key ++ id ∷ number ∷ [];
  salt_key = 3 ∷ [];
  encode = λ _. record { tlid = 1; is_updates = false; write = λ _. [] };
}

abbrev database : Lookup
database s = record { auth_data = some auth; authorization = none; channel_ids = λ _. [] }

world-Tracks : TracksWorld 0 world
world-Tracks = (session, refl, record { same = refl; distinct = tt; bounded = omega arith })

-- A call that waits for another one in vain.
propagate_completes_example :
    Completed sessions keys 0 8
      (propagate sessions keys env database 8 0 (invoke_after_msg 4 (ping 6)) world).1
propagate_completes_example =
    propagate_completes sessions keys 0 env database 8 (invoke_after_msg 4 (ping 6)) world
      world-Tracks

get_future_salts-Kept_example :
    (salts : List FutureSalt) × (get_future_salts env 8 0 (pos 3) world
      ≡ (done (future_salts 8 (seconds env.time) salts), world))
    × (length salts ≡ min (at_least_one (pos 3)) 64)
    × All (Kept env session 77) salts
get_future_salts-Kept_example = get_future_salts-Kept env 8 0 77 (pos 3) session world refl refl

abbrev server : Server
server = record { make_salt = env.make_salt; salt_key = env.salt_key; clock = λ _. 3600000000 }

abbrev wire : Wire
wire = record { room = 6; sent = [] }

world-Quiet : QuietHeap (refs_of sessions world.client) 0 world.manager.heap
world-Quiet j there differ =
    let at : 9 ≡ j = ground arith in
    rw (← at) (keygen, refl, record { plain = refl; messages = refl; again = refl })

destroy_session_spins_example :
    (drain sessions server 4
      ((propagate sessions keys env database 8 0 (destroy_session 5) world).1, wire)).0
    ≡ done false
unfolding lookup
destroy_session_spins_example =
    destroy_session_spins sessions keys env database server 8 0 77 4 session world wire refl refl
      refl refl world-Quiet

-- A packet of the session that holds a ping.
abbrev packet : Packet
packet = record {
  message_id = 3600 * 2 ^ 32;
  seq_no = 1;
  salt = [];
  body = 0xec ∷ 0x77 ∷ 0xbe ∷ 0x7a ∷ [];
}

abbrev silent : Outgoing
silent = record { tlid = 1; is_updates = false; write = λ _. [] }

abbrev intake : Intake Sessions Keys
intake = record {
  sessions = sessions;
  keys = keys;
  unknown = keys;
  decrypt = λ key encrypted. some (5, packet);
  parse = λ body. single (ping 6);
  notices = record {
    bad_msg_notification = λ id seq code. silent;
    bad_server_salt = λ id seq salt. silent;
  };
  long = λ salt. salt;
  writable = true;
}

abbrev encrypted : Encrypted
encrypted = record { auth_key_id = 77; needs_quick_ack = true; encrypted = [] }

recv_packet-Tracks_example : TracksWorld 0 (recv_packet env database intake encrypted world).1
recv_packet-Tracks_example = recv_packet-Tracks env database intake 0 encrypted world world-Tracks
