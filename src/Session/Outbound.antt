-- ===== src/Session/Outbound.antt =====
-- session.py: messages are packed and queued for the client; `enqueue` and what it calls.
use piltover.Base.{Bool, [], arith, false, if◌then◌else◌, none, some, ℕ, ◌++◌, ◌+◌, ◌∷◌, ◌≡◌}
use piltover.Tl.Codec.{Bytes}
use piltover.Session.{Session}
use piltover.Session.MsgId.{msg_id, pack_message}

-- An object on its way out: its constructor id, whether it is `Updates` under `NeedsContextValues`, if
-- it has that, and its bytes. Serialisation is that of the generated classes, under a `seq` for
-- `Updates`.
pub record Outgoing : Type 0 where
  pub tlid : ℕ
  pub is_updates : Bool
  pub write : ℕ → Bytes

-- `_next_upd_seq` of a session with an `auth_id`: the number, and the session after it. `stored` is
-- `upd_seq` of the authorization in the database.
unfoldable pub next_upd_seq : Session → ℕ → ℕ × Session
next_upd_seq s stored =
    let seq : ℕ = elim s.upd_seq [ none ↦ stored + 1 | some n ↦ n + 1 ] in
    (seq, record s { upd_seq = some seq })

unfoldable pub assign_seq : Session → Outgoing → ℕ → ℕ × Session
unfolding next_upd_seq
assign_seq s obj stored = elim s.auth_id [
  | none ↦ (0, s)
  | some _ ↦ if obj.is_updates then next_upd_seq s stored else (0, s)
]

-- `_schedule_outbound_flush`: a new task, unless there is no client or one is running.
unfoldable pub schedule_outbound_flush : Session → Session
schedule_outbound_flush s = elim s.client [
  | none ↦ s
  | some _ ↦ elim s.flush_task [
    | none ↦ record s { flush_task = some (record { done = false }) }
    | some t ↦ if t.done then record s { flush_task = some (record { done = false }) } else s
  ]
]

unfoldable pub enqueue : Session → ℕ → ℕ → Outgoing → Bool → Session
unfolding assign_seq schedule_outbound_flush
enqueue s time stored obj in_reply =
    let (seq, s₁) = assign_seq s obj stored in
    let (message, s₂) = pack_message s₁ time obj.tlid in_reply in
    schedule_outbound_flush
      (record s₂ { message_queue = s₂.message_queue ++ (message.0, message.1, obj.write seq) ∷ [] })

pub enqueue-rpc :
    (s : Session) (time stored : ℕ) (obj : Outgoing) (in_reply : Bool)
    → (enqueue s time stored obj in_reply).rpc ≡ s.rpc
unfolding enqueue assign_seq next_upd_seq schedule_outbound_flush pack_message
enqueue-rpc s time stored obj in_reply = ground arith

unfoldable enqueue_unencrypted : Session → ℕ → Outgoing → Bool → Session
unfolding schedule_outbound_flush
enqueue_unencrypted s time obj in_reply =
    let (id, values) = msg_id s.msg_id_values time in_reply in
    schedule_outbound_flush (record s {
      msg_id_values = values;
      unencrypted_queue = s.unencrypted_queue ++ (id, obj.write 0) ∷ [];
    })
