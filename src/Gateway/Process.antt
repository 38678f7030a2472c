-- ===== src/Gateway/Process.antt =====
-- client.py: a request is answered by a handler of the gateway or by the worker, and is complete
-- afterwards.
use piltover.Base.{List, Option, [], false, none, some, true, ℕ, ◌∷◌}
pub mod Completes
use piltover.Tl.Codec.{Bytes}
use piltover.Session.Rpc.{mark_rpc_completed}
use piltover.Session.MsgId.{seconds}
use piltover.Broker.{key_id}
use piltover.Gateway.{LruOps, World}
use piltover.Gateway.Action.{
  Action, Done, done, raised, disconnection, other, pure, raise, modify, ◌>>=◌, ◌>>◌, try_finally,
}
use piltover.Gateway.Requests.{
  Answer, Call, Env, Query, destroy_session, get_future_salts, init_connection, invoke_after_msg,
  invoke_after_msgs, invoke_with_layer, invoke_without_updates, msg_wait_timeout, msgs_ack,
  msgs_state_req, ping, ping_delay_disconnect, pong, rpc_answer_unknown, rpc_drop_answer, rpc_error,
  rpc_result, worker,
}
use piltover.Gateway.Gate.{
  AuthGateResult, ok, drop, unregistered, on_session, enqueue, auth_gate,
  respond_auth_key_unregistered,
}
use piltover.Gateway.Handlers
use piltover.Gateway.Handlers.{
  with_session, wait_for_invoke_after, reschedule, set_layer, set_no_updates, note_connection,
}
use piltover.Gateway.Worker.{Lookup, refresh, run_worker}

unfoldable timed_out_answer : ℕ → Option Answer
timed_out_answer message_id = some (rpc_result message_id (rpc_error 420 msg_wait_timeout))

abbrev pub reply : {C D : Type 0} → Env → ℕ → Option Answer → Action (World C D) Done
reply env ref none = pure tt
reply env ref (some answer) = modify (enqueue env ref answer true)

-- `popleft` of an empty deque raises.
unfoldable pub mark_completed : {C D : Type 0} → ℕ → ℕ → Action (World C D) Done
unfolding mark_rpc_completed
mark_completed message_id ref = with_session ref (λ s w.
    elim (mark_rpc_completed s.rpc message_id) [
      | none ↦ (raised other, w)
      | some rpc ↦ (done tt, on_session ref (λ s'. record s' { rpc = rpc }) w)
    ])

module _ {C D : Type 0} (sessions : LruOps (ℕ × ℕ) ℕ C) (keys : LruOps ℕ Bytes D) where
  -- A request that no handler of the gateway takes, by what the gate says.
  unfoldable gated :
      Env → Lookup → ℕ → ℕ → ℕ → Call → AuthGateResult → Action (World C D) (Option Answer)
  unfolding run_worker respond_auth_key_unregistered
  gated env db message_id ref auth_key_id call drop = pure none
  gated env db message_id ref auth_key_id call unregistered = do
    modify (respond_auth_key_unregistered sessions keys env message_id ref auth_key_id)
    raise (disconnection (some 404))
  gated env db message_id ref auth_key_id call ok = run_worker env db message_id ref call

  unfoldable pub run_gated : Env → Lookup → ℕ → ℕ → Call → Action (World C D) (Option Answer)
  unfolding gated auth_gate
  run_gated env db message_id ref call = with_session ref (λ s w. elim (key_id s.auth_data) [
    | none ↦ (raised other, w)
    | some auth_key_id ↦
        gated env db message_id ref auth_key_id call
          (auth_gate w (seconds env.time) auth_key_id call.bind) w
  ])

  unfoldable pub process_request : Env → Lookup → ℕ → ℕ → Query → Action (World C D) (Option Answer)
  unfolding Handlers.msgs_ack Handlers.msgs_state_req reschedule set_layer wait_for_invoke_after
      set_no_updates note_connection Handlers.destroy_session Handlers.get_future_salts run_gated
      timed_out_answer
  process_request env db message_id ref (msgs_ack msg_ids) = do
    modify (Handlers.msgs_ack ref msg_ids)
    pure none
  process_request env db message_id ref (msgs_state_req msg_ids) =
      pure (some (Handlers.msgs_state_req message_id msg_ids))
  process_request env db message_id ref (ping ping_id) = pure (some (pong message_id ping_id))
  process_request env db message_id ref (ping_delay_disconnect ping_id delay) = do
    modify (reschedule env.time delay)
    pure (some (pong message_id ping_id))
  process_request env db message_id ref (invoke_with_layer layer query) = do
    set_layer env ref layer
    process_request env db message_id ref query
  process_request env db message_id ref (invoke_after_msg msg_id query) = do
    ended ← wait_for_invoke_after env ref (msg_id ∷ [])
    elim ended [
      | true ↦ process_request env db message_id ref query
      | false ↦ pure (timed_out_answer message_id)
    ]
  process_request env db message_id ref (invoke_after_msgs msg_ids query) = do
    ended ← wait_for_invoke_after env ref msg_ids
    elim ended [
      | true ↦ process_request env db message_id ref query
      | false ↦ pure (timed_out_answer message_id)
    ]
  process_request env db message_id ref (invoke_without_updates query) = do
    modify (set_no_updates ref)
    process_request env db message_id ref query
  process_request env db message_id ref (init_connection query) = do
    modify (note_connection ref)
    process_request env db message_id ref query
  process_request env db message_id ref (destroy_session session_id) = do
    answer ← Handlers.destroy_session ref session_id
    pure (some answer)
  process_request env db message_id ref rpc_drop_answer =
      pure (some (rpc_result message_id rpc_answer_unknown))
  process_request env db message_id ref (get_future_salts num) = do
    answer ← Handlers.get_future_salts env message_id ref num
    pure (some answer)
  process_request env db message_id ref (worker call) = run_gated env db message_id ref call

  unfoldable pub answered : Env → Lookup → ℕ → ℕ → Query → Action (World C D) (Option Answer)
  unfolding process_request enqueue
  answered env db message_id ref query = do
    answer ← process_request env db message_id ref query
    reply env ref answer
    pure answer

  unfoldable pub propagate : Env → Lookup → ℕ → ℕ → Query → Action (World C D) (Option Answer)
  unfolding answered mark_completed
  propagate env db message_id ref query =
      try_finally (answered env db message_id ref query) (mark_completed message_id ref)

  -- `for msg in req_message.obj.messages`
  unfoldable pub propagate_all : Env → Lookup → ℕ → List (ℕ × Query) → Action (World C D) Done
  unfolding propagate
  propagate_all env db ref [] = pure tt
  propagate_all env db ref ((message_id, query) ∷ messages) = do
    propagate env db message_id ref query
    propagate_all env db ref messages

  -- `handle_encrypted_message`: the requests of a container, or the one that came alone.
  unfoldable pub handle_encrypted_message :
      Env → Lookup → ℕ → List (ℕ × Query) → Action (World C D) Done
  unfolding refresh propagate_all
  handle_encrypted_message env db ref messages = do
    refresh env db false ref
    propagate_all env db ref messages
