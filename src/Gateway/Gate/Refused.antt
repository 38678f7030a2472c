-- ===== src/Gateway/Gate/Refused.antt =====
-- client.py: what a refused auth key is told.
use piltover.Base.{Option, get, none, some, true, ℕ, ◌≡◌}
use piltover.Tl.Codec.{Bytes}
use piltover.Session.{Session}
use piltover.Session.Lifecycle
use piltover.Session.Outbound
use piltover.Session.Flush.{Server, Wire}
use piltover.Gateway.{LruOps, World}
use piltover.Gateway.Requests.{Env, rpc_result, rpc_error, auth_key_unregistered}
use piltover.Gateway.Sessions.{uniq_id}
use piltover.Gateway.Gate.{drop, enqueue, auth_gate}

-- The session with the answer in its queue.
abbrev pub told : Env → ℕ → Session → Session
told env m s =
    Outbound.enqueue s env.time env.stored
      (env.encode (rpc_result m (rpc_error 401 auth_key_unregistered))) true

module _ {C D : Type 0} (sessions : LruOps (ℕ × ℕ) ℕ C) (keys : LruOps ℕ Bytes D) where
  -- The connection and the session after the refusal.
  pub record IsRefused (auth_key_id ref : ℕ) (s : Session) (w : World C D) : Type 0 where
    pub key_dropped : keys.find auth_key_id w.client.active_keys ≡ none
    pub session_dropped : sessions.find (uniq_id s) w.client.active_sessions ≡ none
    pub rejected : (now : ℕ) (bind : Option ℕ) → auth_gate w now auth_key_id bind ≡ drop
    pub session : Session
    pub there : get ref w.manager.heap ≡ some session
    pub queued : session.message_queue ≡ s.message_queue
    pub silent :
        (server : Server) (wire : Wire)
        → Lifecycle.flush_outbound server session wire ≡ (session, wire)
