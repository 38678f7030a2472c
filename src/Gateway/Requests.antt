-- ===== src/Gateway/Requests.antt =====
-- The requests and answers that piltover/gateway knows by class, and what it is given by the worker
-- that runs all other requests.
use piltover.Base.{Bool, List, Option, ℕ}
use piltover.Base.Ints.{ℤ}
use piltover.Tl.Codec.{Bytes}
use piltover.Session.Outbound.{Outgoing}

-- A request for the worker. `bind` is `perm_auth_key_id` of a `BindTempAuthKey`.
pub record Call : Type 0 where
  pub bind : Option ℕ
  pub body : Bytes

pub data Query : Type 0 where
  msgs_ack : List ℕ → Query
  msgs_state_req : List ℕ → Query
  ping : ℕ → Query
  ping_delay_disconnect : ℕ → ℤ → Query
  invoke_with_layer : ℕ → Query → Query
  invoke_after_msg : ℕ → Query → Query
  invoke_after_msgs : List ℕ → Query → Query
  invoke_without_updates : Query → Query
  init_connection : Query → Query
  destroy_session : ℕ → Query
  rpc_drop_answer : Query
  get_future_salts : ℤ → Query
  worker : Call → Query

pub record FutureSalt : Type 0 where
  pub valid_since : ℕ
  pub valid_until : ℕ
  pub salt : Bytes

-- The text of an `RpcError`.
pub data ErrorText : Type 0 where
  auth_key_unregistered : ErrorText
  msg_wait_timeout : ErrorText
  internal_server_error_timeout : ErrorText
  internal_server_error : ErrorText
  input_method_invalid : ℕ → ErrorText

-- The contents of an `RpcResult`; `obj` is what the worker made.
pub data Outcome : Type 0 where
  rpc_error : ℕ → ErrorText → Outcome
  rpc_answer_unknown : Outcome
  obj : Bytes → Outcome

pub data Answer : Type 0 where
  pong : ℕ → ℕ → Answer
  msgs_state_info : ℕ → List ℕ → Answer
  future_salts : ℕ → ℕ → List FutureSalt → Answer
  destroy_session_ok : ℕ → Answer
  rpc_result : ℕ → Outcome → Answer
  ack : List ℕ → Answer
  new_session_created : ℕ → ℕ → Bytes → Answer

-- `CallRpc`, less the address of the client.
pub record CallRpc : Type 0 where
  pub call : Call
  pub layer : ℕ
  pub auth_key_id : Option ℕ
  pub perm_auth_key_id : Option ℕ
  pub session_id : ℕ
  pub message_id : ℕ
  pub auth_id : Option ℕ
  pub user_id : Option ℕ
  pub is_bot : Bool
  pub mfa_pending : Bool

-- `RpcResponse`: its `obj` is an `RpcResult` or null.
pub record Response : Type 0 where
  pub transport_error : Option ℕ
  pub refresh_auth : Bool
  pub result : Option (ℕ × Outcome)

-- `TaskiqResult`: an error of the worker, bytes that cannot be read, an object of another class, or
-- a response.
pub data TaskResult : Type 0 where
  is_err : TaskResult
  unreadable : TaskResult
  not_response : TaskResult
  response : Response → TaskResult

-- `task.wait_result(timeout=…)`
pub data Wait : Type 0 where
  result : TaskResult → Wait
  timed_out : Wait
  failed : Wait

-- `.kiq()` raises, or there is a task: what a first wait for it gives, and what a second one would.
pub data Task : Type 0 where
  not_queued : Task
  queued : Wait → Wait → Task

-- What the rest of the server does during a request: the clock, the numbers kept in the database for
-- `Updates`, which calls end in time for those that wait, and the worker.
pub record Env : Type 0 where
  pub time : ℕ
  pub stored : ℕ
  pub ends_in_time : ℕ → Bool
  pub kiq : CallRpc → Task
  pub max_layer : ℕ
  pub make_salt : Bytes → ℕ → ℕ → Bytes
  pub salt_key : Bytes
  pub encode : Answer → Outgoing
