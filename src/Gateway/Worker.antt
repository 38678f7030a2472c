-- ===== src/Gateway/Worker.antt =====
-- client.py: a request goes to a worker, through its broker of tasks, and its result comes back.
use piltover.Base.{Bool, Option, [], false, if◌then◌else◌, min, none, put, some, true, ℕ, ◌==◌, ◌∷◌}
use piltover.Session.{Session}
use piltover.Broker.{key_id, perm_key_id}
use piltover.Manager.Auth.{Answers, refresh_auth_maybe}
use piltover.AuthKeys.{layer_of}
use piltover.Gateway.{World}
use piltover.Gateway.Action.{
  Action, Done, done, raised, disconnection, other, pure, raise, modify, ◌>>=◌, ◌>>◌,
}
use piltover.Gateway.Requests.{
  Outcome, Answer, Call, CallRpc, Env, Response, Task, TaskResult, Wait, ack, failed,
  internal_server_error, internal_server_error_timeout, is_err, not_queued, not_response, queued,
  response, result, rpc_error, rpc_result, timed_out, unreadable,
}
use piltover.Gateway.Gate.{on_session, enqueue}
use piltover.Gateway.Handlers.{with_session}

-- The argument of `_kiq`.
unfoldable pub call_rpc : Session → Call → ℕ → CallRpc
call_rpc s call message_id = record {
  call = call;
  layer = s.layer;
  auth_key_id = key_id s.auth_data;
  perm_auth_key_id = perm_key_id s.auth_data;
  session_id = s.session_id;
  message_id = message_id;
  auth_id = s.auth_id;
  user_id = s.user_id;
  is_bot = s.is_bot;
  mfa_pending = s.mfa_pending;
}

-- What `_wait_result_with_ack` gives: a result, or `none` for an exception; and whether an
-- acknowledgement was sent meanwhile.
abbrev last_wait : Wait → Option TaskResult
last_wait (result r) = some r
last_wait timed_out = none
last_wait failed = none

unfoldable pub wait_result_with_ack :
    {C D : Type 0} → Env → ℕ → ℕ → Wait → Wait → Action (World C D) (Option TaskResult)
unfolding enqueue
wait_result_with_ack env message_id ref (result r) second w = (done (some r), w)
wait_result_with_ack env message_id ref failed second w = (done none, w)
wait_result_with_ack env message_id ref timed_out second w =
    (done (last_wait second), enqueue env ref (ack (message_id ∷ [])) false w)

unfoldable pub server_error : ℕ → Option Answer
server_error message_id = some (rpc_result message_id (rpc_error 500 internal_server_error))

abbrev pub as_answer : Option (ℕ × Outcome) → Option Answer
as_answer none = none
as_answer (some (message_id, outcome)) = some (rpc_result message_id outcome)

-- What the database says of the session's key, for `refresh_auth_maybe`.
abbrev pub Lookup : Type 0
Lookup = Session → Answers

-- `refresh_auth_maybe(force)`. A key that is gone leaves the session without data, and is an
-- `AttributeError`.
unfoldable pub refresh : {C D : Type 0} → Env → Lookup → Bool → ℕ → Action (World C D) Done
unfolding refresh_auth_maybe
refresh env db force ref = with_session ref (λ s w.
    elim (refresh_auth_maybe ref force (db s) env.time s w.manager.broker) [
      | none ↦ (raised other, on_session ref (λ s'. record s' { auth_data = none }) w)
      | some (s', b) ↦ (
        done tt,
        record w { manager = record w.manager { heap = put ref s' w.manager.heap; broker = b } },
      )
    ])

abbrev pub lower_layer : ℕ → Option ℕ → Session → Session
lower_layer max_layer none s = s
lower_layer max_layer (some layer) s = record s { layer = min layer max_layer }

abbrev pub stored_layer : {C D : Type 0} → World C D → Option ℕ → Option ℕ
stored_layer w none = none
stored_layer w (some id) = layer_of w.tables id

unfoldable pub fetch_layer : {C D : Type 0} → Env → ℕ → World C D → World C D
unfolding layer_of
fetch_layer env ref w =
    on_session ref (λ s. lower_layer env.max_layer (stored_layer w (perm_key_id s.auth_data)) s) w

-- The end of `_process_request`, on a response. A transport error of 0 disconnects without one.
abbrev nonzero : ℕ → Option ℕ
nonzero n = if n == 0 then none else some n

unfoldable pub accept_response :
    {C D : Type 0} → Env → Lookup → ℕ → Response → Action (World C D) (Option Answer)
unfolding refresh fetch_layer
accept_response env db ref r = elim r.transport_error [
  | some n ↦ raise (disconnection (nonzero n))
  | none ↦ elim r.refresh_auth [
    | false ↦ pure (as_answer r.result)
    | true ↦ do refresh env db true ref; modify (fetch_layer env ref); pure (as_answer r.result)
  ]
]

-- After the wait.
unfoldable pub accept_result :
    {C D : Type 0} → Env → Lookup → ℕ → ℕ → Option TaskResult → Action (World C D) (Option Answer)
unfolding accept_response server_error
accept_result env db message_id ref none =
    pure (some (rpc_result message_id (rpc_error 500 internal_server_error_timeout)))
accept_result env db message_id ref (some is_err) = pure (server_error message_id)
accept_result env db message_id ref (some unreadable) = raise other
accept_result env db message_id ref (some not_response) = pure (server_error message_id)
accept_result env db message_id ref (some (response r)) = accept_response env db ref r

-- The task is made outside of the `try`.
unfoldable pub await_task :
    {C D : Type 0} → Env → Lookup → ℕ → ℕ → Task → Action (World C D) (Option Answer)
unfolding wait_result_with_ack accept_result
await_task env db message_id ref not_queued = raise other
await_task env db message_id ref (queued first second) = do
  r ← wait_result_with_ack env message_id ref first second
  accept_result env db message_id ref r

unfoldable pub run_worker :
    {C D : Type 0} → Env → Lookup → ℕ → ℕ → Call → Action (World C D) (Option Answer)
unfolding call_rpc await_task
run_worker env db message_id ref call =
    with_session ref (λ s. await_task env db message_id ref (env.kiq (call_rpc s call message_id)))
