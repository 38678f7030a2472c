-- ===== src/Session/Flush.antt =====
-- session.py and `_write_session_queues` of piltover/gateway/client.py: what is queued is written to
-- the connection and kept until the client acknowledges it.
pub mod Delivery
pub mod Complete
use piltover.Base.{
  Dict, List, Option, [], false, if◌then◌else◌, none, put, remove, some, suc, zero, ℕ, ◌++◌, ◌∷◌,
}
use piltover.Tl.Codec.{Bytes}
use piltover.Session.{AuthData, Session}
use piltover.Session.Salts.{update_salts_maybe}

unfoldable pub track_pending_outbound : Session → ℕ → ℕ → Bytes → Session
track_pending_outbound s message_id seq_no body = record s {
  pending_outbound = put message_id (seq_no, body) s.pending_outbound;
}

pub remove_all : {V : Type 0} → List ℕ → Dict V → Dict V
remove_all [] m = m
remove_all (id ∷ ids) m = remove_all ids (remove id m)

unfoldable pub ack_outbound : Session → List ℕ → Session
unfolding remove_all
ack_outbound s msg_ids = record s { pending_outbound = remove_all msg_ids s.pending_outbound }

-- A packet: an unencrypted message, or an encrypted one by what is encrypted, less the salt and the
-- session's id, which are those of the session at the time.
pub data Sent : Type 0 where
  in_clear : ℕ → Bytes → Sent
  sealed : ℕ → ℕ → Bytes → Sent

-- The connection: how many more packets it takes before it breaks, and what it took.
-- A write on a broken connection raises `Disconnection`, here `none`.
pub record Wire : Type 0 where
  pub room : ℕ
  pub sent : List Sent

unfoldable pub write_packet : Wire → Sent → Option Wire
write_packet w packet = elim w.room [
  | zero ↦ none
  | suc room ↦ some (record { room = room; sent = w.sent ++ packet ∷ [] })
]

-- What the server gives: the HMAC and its key, and the clock at the write of each message.
pub record Server : Type 0 where
  pub make_salt : Bytes → ℕ → ℕ → Bytes
  pub salt_key : Bytes
  pub clock : ℕ → ℕ

pub data Failure : Type 0 where
  disconnection : Failure
  unreachable : Failure

-- The state and the wire after some writes, and the exception that ended them, if one did.
pub record Written : Type 0 where
  pub session : Session
  pub wire : Wire
  pub raised : Option Failure

abbrev pub and_then : Written → (Session → Wire → Written) → Written
and_then r next = elim r.raised [ some _ ↦ r | none ↦ next r.session r.wire ]

-- `_write_packet` on behalf of a session
unfoldable pub send_packet : Session → Wire → Sent → Written
unfolding write_packet
send_packet s w packet = elim (write_packet w packet) [
  | none ↦ record { session = s; wire = w; raised = some disconnection }
  | some w' ↦ record { session = s; wire = w'; raised = none }
]

-- `get_nowait` takes the message off the queue before it is written.
unfoldable pub write_unencrypted : List (ℕ × Bytes) → Session → Wire → Written
unfolding send_packet
write_unencrypted [] s w = record {
  session = record s { unencrypted_queue = [] };
  wire = w;
  raised = none;
}
write_unencrypted ((message_id, body) ∷ queue) s w =
    and_then (send_packet (record s { unencrypted_queue = queue }) w (in_clear message_id body))
      (λ s' w'. write_unencrypted queue s' w')

abbrev pub auth_key_of : Option AuthData → Option Bytes
auth_key_of none = none
auth_key_of (some a) = a.auth_key

module _ (server : Server) where
  -- The session with the salts of the time at which a message is written.
  unfoldable pub salted : Session → ℕ → Session
  unfolding update_salts_maybe
  salted s message_id =
      update_salts_maybe server.make_salt s server.salt_key false (server.clock message_id)

  -- `_write_message`
  unfoldable pub write_message : Session → Wire → ℕ → ℕ → Bytes → Written
  unfolding send_packet salted
  write_message s w message_id seq_no body = elim (auth_key_of s.auth_data) [
    | none ↦ record { session = s; wire = w; raised = some unreachable }
    | some _ ↦ send_packet (salted s message_id) w (sealed message_id seq_no body)
  ]

  -- `for message_id, (seq_no, body) in session.pending_outbound.items()`
  unfoldable pub write_pending : Dict (ℕ × Bytes) → Session → Wire → Written
  unfolding write_message
  write_pending [] s w = record { session = s; wire = w; raised = none }
  write_pending ((message_id, (seq_no, body)) ∷ pending) s w =
      and_then (write_message s w message_id seq_no body) (λ s' w'. write_pending pending s' w')

  unfoldable pub write_queue : List (ℕ × ℕ × Bytes) → Session → Wire → Written
  unfolding track_pending_outbound write_message
  write_queue [] s w = record { session = record s { message_queue = [] }; wire = w; raised = none }
  write_queue ((message_id, seq_no, body) ∷ queue) s w =
      and_then (write_message (record s { message_queue = queue }) w message_id seq_no body)
        (λ s' w'. write_queue queue (track_pending_outbound s' message_id seq_no body) w')

  -- The second loop.
  unfoldable pub resend_pending : Session → Wire → Written
  unfolding write_pending
  resend_pending s w = elim s.pending_outbound [
    | [] ↦ record { session = s; wire = w; raised = none }
    | _ ∷ _ ↦
        if s.resend_pending_on_connect
        then write_pending s.pending_outbound (record s { resend_pending_on_connect = false }) w
        else record { session = s; wire = w; raised = none }
  ]

  unfoldable pub write_session_queues : Session → Wire → Written
  unfolding write_unencrypted resend_pending write_queue
  write_session_queues s w =
      and_then (and_then (write_unencrypted s.unencrypted_queue s w) resend_pending)
        (λ s' w'. write_queue s'.message_queue s' w')
