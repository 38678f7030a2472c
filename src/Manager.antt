-- ===== src/Manager.antt =====
-- piltover/session/session_manager.py, and the parts of session.py that work on the manager and the
-- broker: which sessions there are, when they end, and whom they belong to.
pub mod Ends
pub mod Send
pub mod Auth
pub mod Registry
pub mod Dispatch
use piltover.Base.{
  Bool, Dict, List, Option, [], add, discard, false, get, if◌then◌else◌, none, not, put, some, true,
  ℕ, ◌&&◌, ◌+◌, ◌==◌, ◌||◌, ◌∷◌,
}
use piltover.Session.{AuthData, Session, new_session}
use piltover.Session.Lifecycle
use piltover.Broker.{Broker, key_id}
use piltover.Broker

-- `leaving` is the set of users whose leaving of their group calls is scheduled.
-- `SessionManager.sessions`: the key is the auth key's id and the session's id, the value an identity.
pub record Entry : Type 0 where
  pub key : Option ℕ
  pub session_id : ℕ
  pub ref : ℕ

pub record Manager : Type 0 where
  pub sessions : List Entry
  pub heap : Dict Session
  pub next_ref : ℕ
  pub broker : Broker
  pub leaving : List ℕ

abbrev pub same_key : Option ℕ → Option ℕ → Bool
same_key none none = true
same_key (some a) (some b) = a == b
same_key _ _ = false

unfoldable pub lookup : Option ℕ → ℕ → List Entry → Option ℕ
lookup key id [] = none
lookup key id (e ∷ es) =
    if same_key e.key key && e.session_id == id then some e.ref else lookup key id es

unfoldable pub drop_key : Option ℕ → ℕ → List Entry → List Entry
drop_key key id [] = []
drop_key key id (e ∷ es) =
    let rest = drop_key key id es in
    if same_key e.key key && e.session_id == id then rest else e ∷ rest

unfoldable pub created : Manager → ℕ → ℕ → AuthData → Manager
created m session_id client auth_data = record m {
  sessions =
      record { key = auth_data.auth_key_id; session_id = session_id; ref = m.next_ref }
      ∷ m.sessions;
  heap = put m.next_ref (new_session session_id (some client) (some auth_data)) m.heap;
  next_ref = m.next_ref + 1;
}

-- The session and whether it was created.
unfoldable pub get_or_create : Manager → ℕ → ℕ → AuthData → (ℕ × Bool) × Manager
unfolding lookup created
get_or_create m session_id client auth_data =
    elim (lookup auth_data.auth_key_id session_id m.sessions) [
      | some ref ↦ ((ref, false), m)
      | none ↦ ((m.next_ref, true), created m session_id client auth_data)
    ]

-- `cancel_scheduled_leave_group_calls(user_id)`
abbrev cancel_leave : Option ℕ → List ℕ → List ℕ
cancel_leave none leaving = leaving
cancel_leave (some user_id) leaving = discard user_id leaving

-- `session.connect(client)`
unfoldable pub connect : Manager → ℕ → ℕ → Manager
connect m ref client = elim (get ref m.heap) [
  | none ↦ m
  | some s ↦
      let s' = Lifecycle.connect s client in
      record m {
        heap = put ref s' m.heap;
        broker = Broker.subscribe m.broker ref s';
        leaving = cancel_leave s.user_id m.leaving;
      }
]

abbrev connected_as : ℕ → Option Session → Bool
connected_as user_id none = false
connected_as user_id (some s) = same_key s.user_id (some user_id) && not (same_key s.client none)

-- `has_connected_session_for_user(user_id, exclude=…)` over `sessions.values()`
unfoldable has_connected : Dict Session → List Entry → ℕ → Option ℕ → Bool
has_connected heap [] user_id exclude = false
has_connected heap (e ∷ es) user_id exclude =
    let rest = has_connected heap es user_id exclude in
    if same_key (some e.ref) exclude then rest else connected_as user_id (get e.ref heap) || rest

-- `schedule_leave_group_calls_for_user`, if there is a user and no other connected session of theirs
unfoldable pub schedule_leave : Option ℕ → Option ℕ → Manager → Manager
unfolding has_connected
schedule_leave none exclude m = m
schedule_leave (some user_id) exclude m =
    if has_connected m.heap m.sessions user_id exclude
    then m
    else record m { leaving = add user_id m.leaving }

unfoldable pub disconnect : Manager → ℕ → Manager
unfolding schedule_leave
disconnect m ref = elim (get ref m.heap) [
  | none ↦ m
  | some s ↦
      let m' = record m { heap = put ref (Lifecycle.disconnect s) m.heap } in
      if same_key s.client none then m' else schedule_leave s.user_id (some ref) m'
]

-- What `finalize` does first to a session with a key.
unfoldable pub ended : Manager → ℕ → ℕ → Session → Manager
unfolding drop_key
ended m ref id s = record m {
  sessions = drop_key (some id) s.session_id m.sessions;
  heap = put ref (Lifecycle.finalize s) m.heap;
  broker = Broker.unsubscribe m.broker ref s;
}

-- `finalize(session)`; a session without a key is only emptied.
unfoldable pub finalize : Manager → ℕ → Manager
unfolding ended schedule_leave
finalize m ref = elim (get ref m.heap) [
  | none ↦ m
  | some s ↦ elim (key_id s.auth_data) [
    | none ↦ record m { heap = put ref (Lifecycle.finalize s) m.heap }
    | some id ↦ schedule_leave s.user_id none (ended m ref id s)
  ]
]

-- `_delayed_cleanup` after its sleep: the session may have a client again.
unfoldable pub delayed_cleanup : Manager → ℕ → Manager
delayed_cleanup m ref = elim (get ref m.heap) [
  | none ↦ m
  | some s ↦ elim s.client [ some _ ↦ m | none ↦ finalize m ref ]
]
