-- ===== src/Gateway/Handlers.antt =====
-- _system_handlers.py: the requests that the gateway answers itself, without those that hold another
-- request.
pub mod Promises
use piltover.Base.{
  Bool, List, Option, [], false, get, if◌then◌else◌, length, ltb, max, min, none, not, replicate,
  some, suc, true, zero, ℕ, ◌&&◌, ◌*◌, ◌+◌, ◌/◌, ◌==◌, ◌||◌, ◌∷◌,
}
use piltover.Base.Ints.{ℤ, pos, negsuc}
use piltover.Session.{Session}
use piltover.Session.Flush
use piltover.Session.MsgId.{seconds}
use piltover.Session.Rpc.{wait_begin}
use piltover.Broker.{key_id}
use piltover.Manager
use piltover.Manager.{Manager, lookup}
use piltover.AuthKeys.{update_layer}
use piltover.Gateway.{World}
use piltover.Gateway.Action.{Action, Done, done, raised, other, pure, ◌>>=◌}
use piltover.Gateway.Requests.{
  Answer, Env, FutureSalt, destroy_session_ok, future_salts, msgs_state_info,
}
use piltover.Gateway.Gate.{on_session}

-- A handler needs the session's fields; a session that the heap does not hold does not occur.
abbrev pub with_session :
    {C D A : Type 0} → ℕ → (Session → Action (World C D) A) → Action (World C D) A
with_session ref f w = elim (get ref w.manager.heap) [ none ↦ (raised other, w) | some s ↦ f s w ]

-- The wait of `wait_for_rpc` for a call that is not complete.
unfoldable pub wait_for_rpc : {C D : Type 0} → Env → ℕ → ℕ → Action (World C D) Bool
unfolding wait_begin
wait_for_rpc env ref msg_id = with_session ref (λ s w.
    let (complete, rpc) = wait_begin s.rpc msg_id in
    (done (complete || env.ends_in_time msg_id), on_session ref (λ s'. record s' { rpc = rpc }) w))

-- `_wait_for_invoke_after`: whether all waits ended in time.
unfoldable pub wait_for_invoke_after : {C D : Type 0} → Env → ℕ → List ℕ → Action (World C D) Bool
unfolding wait_for_rpc
wait_for_invoke_after env ref [] = pure true
wait_for_invoke_after env ref (msg_id ∷ msg_ids) = do
  ended ← wait_for_rpc env ref msg_id
  elim ended [ true ↦ wait_for_invoke_after env ref msg_ids | false ↦ pure false ]

unfoldable pub msgs_ack : {C D : Type 0} → ℕ → List ℕ → World C D → World C D
unfolding Flush.ack_outbound
msgs_ack ref msg_ids w = on_session ref (λ s. Flush.ack_outbound s msg_ids) w

-- The string is of bytes 4, "received".
unfoldable pub msgs_state_req : ℕ → List ℕ → Answer
msgs_state_req message_id msg_ids = msgs_state_info message_id (replicate (length msg_ids) 4)

abbrev pub is_positive : ℤ → Bool
is_positive (pos n) = ltb 0 n
is_positive (negsuc n) = false

abbrev magnitude : ℤ → ℕ
magnitude (pos n) = n
magnitude (negsuc n) = 0

-- What `ping_delay_disconnect` does before it answers; the delay is in seconds.
unfoldable pub reschedule : {C D : Type 0} → ℕ → ℤ → World C D → World C D
reschedule now delay w = elim w.client.disconnect_timeout [
  | none ↦ w
  | some _ ↦
      if is_positive delay
      then record w {
        client = record w.client {
          disconnect_timeout = some (record { when = some (now + magnitude delay * 1000000) });
        };
      }
      else w
]

-- `invoke_with_layer` up to the request inside. Without `auth_data` the key's id is an
-- `AttributeError`.
unfoldable pub set_layer : {C D : Type 0} → Env → ℕ → ℕ → Action (World C D) Done
unfolding update_layer
set_layer env ref requested = with_session ref (λ s w.
    let layer : ℕ = min requested env.max_layer in
    let w' = on_session ref (λ s'. record s' { layer = layer }) w in
    if layer == s.layer then (done tt, w') else elim s.auth_data [
      | none ↦ (raised other, w)
      | some a ↦ (done tt, record w' { tables = update_layer a.perm_auth_key_id layer w'.tables })
    ])

unfoldable pub set_no_updates : {C D : Type 0} → ℕ → World C D → World C D
set_no_updates ref w = on_session ref (λ s. record s { no_updates = true }) w

-- `if session.auth_id`
abbrev truthy : Option ℕ → Bool
truthy none = false
truthy (some id) = not (id == 0)

-- `init_connection` up to the request inside; what it writes of the device is not modelled.
abbrev pub noted : Session → Session
noted s =
    if truthy s.auth_id && not s.had_init_connection
    then record s { had_init_connection = true }
    else s

unfoldable pub note_connection : {C D : Type 0} → ℕ → World C D → World C D
note_connection ref w = on_session ref noted w

-- What `destroy_session` does for a session of the same key.
abbrev pub finalize_found : Option ℕ → Manager → Manager
finalize_found none m = m
finalize_found (some ref) m = Manager.finalize m ref

unfoldable pub destroy_stored : {C D : Type 0} → Option ℕ → ℕ → World C D → World C D
unfolding Manager.finalize lookup
destroy_stored none session_id w = w
destroy_stored (some id) session_id w = record w {
  manager = finalize_found (lookup (some id) session_id w.manager.sessions) w.manager;
}

unfoldable pub destroy_session : {C D : Type 0} → ℕ → ℕ → Action (World C D) Answer
unfolding destroy_stored
destroy_session ref session_id = with_session ref (λ s w.
    (done (destroy_session_ok session_id), destroy_stored (key_id s.auth_data) session_id w))

abbrev pub at_least_one : ℤ → ℕ
at_least_one (pos n) = max n 1
at_least_one (negsuc n) = 1

unfoldable pub future_salt : Env → ℕ → ℕ → FutureSalt
future_salt env id number = record {
  valid_since = number * 30 * 60;
  valid_until = (number + 1) * 30 * 60;
  salt = env.make_salt env.salt_key id number;
}

-- `for salt_offset in range(limit)`, from a number on
pub salts_from : Env → ℕ → ℕ → ℕ → List FutureSalt
unfolding future_salt
salts_from env id number zero = []
salts_from env id number (suc limit) =
    future_salt env id number ∷ salts_from env id (number + 1) limit

unfoldable pub get_future_salts : {C D : Type 0} → Env → ℕ → ℕ → ℤ → Action (World C D) Answer
unfolding salts_from
get_future_salts env message_id ref num = with_session ref (λ s w.
    let limit : ℕ = min (at_least_one num) 64 in
    let now = seconds env.time in
    elim (key_id s.auth_data) [
      | none ↦ (raised other, w)
      | some id ↦
          (done (future_salts message_id now (salts_from env id (now / (30 * 60)) limit)), w)
    ])
