-- ===== src/Session.antt =====
-- piltover/session/session.py: the state of a session of the protocol. The operations are in the
-- modules below; ids are natural numbers, times are microseconds.
pub mod Rpc
pub mod MsgId
pub mod Salts
pub mod Outbound
pub mod Flush
pub mod Checks
pub mod Lifecycle
use piltover.Base.{Bool, Dict, List, Option, [], false, none, replicate, ℕ}
use piltover.Tl.Codec.{Bytes}

pub record Salt : Type 0 where
  pub salt : Bytes
  pub valid_at : ℕ

pub record MsgIdValues : Type 0 where
  pub last_time : ℕ
  pub offset : ℕ

-- `AuthData` of piltover/auth_data.py
pub record AuthData : Type 0 where
  pub auth_key_id : Option ℕ
  pub auth_key : Option Bytes
  pub perm_auth_key_id : Option ℕ

-- The fields `_rpc_completions`, `_rpc_completed_ids` and `_rpc_completed_order`; an event is its flag.
pub record RpcTrack : Type 0 where
  pub completions : Dict Bool
  pub completed_ids : List ℕ
  pub completed_order : List ℕ

-- A task is there or not; `done` says whether it has ended.
pub record Task : Type 0 where
  pub done : Bool

pub record Session : Type 0 where
  pub client : Option ℕ
  pub session_id : ℕ
  pub auth_data : Option AuthData
  pub min_msg_id : ℕ
  pub msg_id_values : MsgIdValues
  pub out_seq_no : ℕ
  pub user_id : Option ℕ
  pub auth_id : Option ℕ
  pub is_bot : Bool
  pub mfa_pending : Bool
  pub had_init_connection : Bool
  pub auth_loaded_at : ℕ
  pub channels_loaded_at : ℕ
  pub channel_ids : List ℕ
  pub salt_now : Salt
  pub salt_prev : Salt
  pub no_updates : Bool
  pub layer : ℕ
  pub is_internal_push : Bool
  pub message_queue : List (ℕ × ℕ × Bytes)
  pub unencrypted_queue : List (ℕ × Bytes)
  pub rpc : RpcTrack
  pub upd_seq : Option ℕ
  pub pending_outbound : Dict (ℕ × Bytes)
  pub resend_pending_on_connect : Bool
  pub cleanup_task : Option Task
  pub flush_task : Option Task

abbrev pub no_salt : Salt
no_salt = record { salt = replicate 8 0; valid_at = 0 }

-- `Session(session_id, client, auth_data)`
abbrev pub new_session : ℕ → Option ℕ → Option AuthData → Session
new_session session_id client auth_data = record {
  client = client;
  session_id = session_id;
  auth_data = auth_data;
  min_msg_id = 0;
  msg_id_values = record { last_time = 0; offset = 0 };
  out_seq_no = 0;
  user_id = none;
  auth_id = none;
  is_bot = false;
  mfa_pending = false;
  had_init_connection = false;
  auth_loaded_at = 0;
  channels_loaded_at = 0;
  channel_ids = [];
  salt_now = no_salt;
  salt_prev = no_salt;
  no_updates = false;
  layer = 133;
  is_internal_push = false;
  message_queue = [];
  unencrypted_queue = [];
  rpc = record { completions = []; completed_ids = []; completed_order = [] };
  upd_seq = none;
  pending_outbound = [];
  resend_pending_on_connect = false;
  cleanup_task = none;
  flush_task = none;
}
