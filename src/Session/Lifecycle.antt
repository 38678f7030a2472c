-- ===== src/Session/Lifecycle.antt =====
-- session.py: a client comes and goes, and a session that nobody uses is emptied. What the broker
-- and the session manager do on these occasions is in piltover.Manager.
use piltover.Base.{Bool, [], arith, false, if◌then◌else◌, none, some, true, ℕ, ◌∷◌, ◌≡◌}
use piltover.Session.{Session}
use piltover.Session.Outbound.{schedule_outbound_flush}
use piltover.Session.Flush.{Server, Wire, Written, disconnection, unreachable, write_session_queues}

-- A task that is cancelled does nothing more.
unfoldable cancel_cleanup : Session → Session
cancel_cleanup s = record s { cleanup_task = none }

unfoldable pub connect : Session → ℕ → Session
unfolding cancel_cleanup schedule_outbound_flush
connect s client =
    let s₁ = cancel_cleanup s in
    let again : Bool = elim s₁.pending_outbound [
      | [] ↦ s₁.resend_pending_on_connect
      | _ ∷ _ ↦ true
    ] in
    schedule_outbound_flush (record s₁ { client = some client; resend_pending_on_connect = again })

pub connect-rpc : (s : Session) (client : ℕ) → (connect s client).rpc ≡ s.rpc
unfolding connect cancel_cleanup schedule_outbound_flush
connect-rpc s client = ground arith

-- `SessionManager.schedule_cleanup`
unfoldable schedule_cleanup : Session → Session
schedule_cleanup s = elim s.cleanup_task [
  | none ↦ record s { cleanup_task = some (record { done = false }) }
  | some t ↦ if t.done then record s { cleanup_task = some (record { done = false }) } else s
]

unfoldable pub disconnect : Session → Session
unfolding schedule_cleanup
disconnect s =
    let s' = record s { client = none; had_init_connection = false; flush_task = none } in
    elim s.client [ none ↦ s' | some _ ↦ schedule_cleanup s' ]

pub disconnect-client : (s : Session) → (disconnect s).client ≡ none
unfolding disconnect schedule_cleanup
disconnect-client s = ground arith

pub disconnect-message_queue : (s : Session) → (disconnect s).message_queue ≡ s.message_queue
unfolding disconnect schedule_cleanup
disconnect-message_queue s = ground arith

pub disconnect-rpc : (s : Session) → (disconnect s).rpc ≡ s.rpc
unfolding disconnect schedule_cleanup
disconnect-rpc s = ground arith

unfoldable pub finalize : Session → Session
unfolding cancel_cleanup
finalize s = record (cancel_cleanup s) {
  client = none;
  rpc = record { completions = []; completed_ids = []; completed_order = [] };
  upd_seq = none;
  flush_task = none;
  pending_outbound = [];
  resend_pending_on_connect = false;
  message_queue = [];
  unencrypted_queue = [];
}

-- `except Disconnection: self.disconnect()`; any other exception goes on to the caller, of whom all
-- only log it.
unfoldable after_write : Written → Session × Wire
unfolding disconnect
after_write r = elim r.raised [
  | none ↦ (r.session, r.wire)
  | some disconnection ↦ (disconnect r.session, r.wire)
  | some unreachable ↦ (r.session, r.wire)
]

unfoldable pub flush_outbound : Server → Session → Wire → Session × Wire
unfolding after_write
flush_outbound server s w = elim s.client [
  | none ↦ (s, w)
  | some _ ↦ after_write (write_session_queues server s w)
]

pub flush_outbound_alone :
    (server : Server) (s : Session) (w : Wire)
    → s.client ≡ none
    → flush_outbound server s w ≡ (s, w)
unfolding flush_outbound
flush_outbound_alone server s w e = ground (arith, e)
