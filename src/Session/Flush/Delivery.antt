-- ===== src/Session/Flush/Delivery.antt =====
-- What a flush sends, keeps and loses.
use piltover.Base.{
  Bool, Dict, List, Option, [], ap, drop, false, none, put, refl, some, subst, suc, sym, take, true,
  zero, ℕ, ◌++◌, ◌∙◌, ◌∷◌, ◌≡◌,
}
use mathlib.Core.List.{append-nil, append_assoc}
use piltover.Tl.Codec.{Bytes}
use piltover.Session.{Session}
use piltover.Session.Flush.{
  Sent, in_clear, sealed, Wire, Server, Failure, disconnection, unreachable, Written, and_then,
  write_packet, send_packet, auth_key_of, salted, write_message, write_queue,
  track_pending_outbound,
}

abbrev pub all_sealed : List (ℕ × ℕ × Bytes) → List Sent
all_sealed [] = []
all_sealed ((id, seq_no, body) ∷ queue) = sealed id seq_no body ∷ all_sealed queue

abbrev pub all_plain : List (ℕ × Bytes) → List Sent
all_plain [] = []
all_plain ((id, body) ∷ queue) = in_clear id body ∷ all_plain queue

abbrev pub all_pending : Dict (ℕ × Bytes) → List Sent
all_pending [] = []
all_pending ((id, (seq_no, body)) ∷ m) = sealed id seq_no body ∷ all_pending m

abbrev pub track_all : List (ℕ × ℕ × Bytes) → Dict (ℕ × Bytes) → Dict (ℕ × Bytes)
track_all [] m = m
track_all ((id, seq_no, body) ∷ queue) m = track_all queue (put id (seq_no, body) m)

abbrev pub tail : List (ℕ × ℕ × Bytes) → List (ℕ × ℕ × Bytes)
tail [] = []
tail (_ ∷ queue) = queue

abbrev pub nonempty : List (ℕ × ℕ × Bytes) → Bool
nonempty [] = false
nonempty (_ ∷ _) = true

abbrev pub failed : Bool → Option Failure
failed true = some disconnection
failed false = none

module _ (server : Server) where
  -- A write for a session with an auth key, over a wire with and without room.
  pub write_message_sent :
      (s : Session) (key : Bytes) (room : ℕ) (sent : List Sent) (id seq_no : ℕ) (body : Bytes)
      → auth_key_of s.auth_data ≡ some key
      → write_message server s (record { room = suc room; sent = sent }) id seq_no body ≡ record {
        session = salted server s id;
        wire = record { room = room; sent = sent ++ sealed id seq_no body ∷ [] };
        raised = none;
      }
  unfolding write_message send_packet write_packet
  write_message_sent s key room sent id seq_no body known = rw (known, write_message)

  write_message_broken :
      (s : Session) (key : Bytes) (sent : List Sent) (id seq_no : ℕ) (body : Bytes)
      → auth_key_of s.auth_data ≡ some key
      → write_message server s (record { room = zero; sent = sent }) id seq_no body ≡ record {
        session = salted server s id;
        wire = record { room = zero; sent = sent };
        raised = some disconnection;
      }
  unfolding write_message send_packet write_packet
  write_message_broken s key sent id seq_no body known = rw (known, write_message)

  write_queue_sent :
      (queue : List (ℕ × ℕ × Bytes)) (s : Session) (key : Bytes) (room : ℕ) (sent : List Sent)
      (id seq_no : ℕ) (body : Bytes)
      → auth_key_of s.auth_data ≡ some key
      → write_queue server ((id, seq_no, body) ∷ queue) s (record { room = suc room; sent = sent })
        ≡ write_queue server queue
            (track_pending_outbound
              (salted server (record s { message_queue = queue }) id)
              id
              seq_no
              body)
            (record { room = room; sent = sent ++ sealed id seq_no body ∷ [] })
  unfolding write_queue
  write_queue_sent queue s key room sent id seq_no body known =
      ap
        (λ r.
          and_then r
            (λ s' w'. write_queue server queue (track_pending_outbound s' id seq_no body) w'))
        (write_message_sent (record s { message_queue = queue }) key room sent id seq_no body known)

  write_queue_broken :
      (queue : List (ℕ × ℕ × Bytes)) (s : Session) (key : Bytes) (sent : List Sent) (id seq_no : ℕ)
      (body : Bytes)
      → auth_key_of s.auth_data ≡ some key
      → write_queue server ((id, seq_no, body) ∷ queue) s (record { room = zero; sent = sent })
        ≡ record {
          session = salted server (record s { message_queue = queue }) id;
          wire = record { room = zero; sent = sent };
          raised = some disconnection;
        }
  unfolding write_queue
  write_queue_broken queue s key sent id seq_no body known =
      ap
        (λ r.
          and_then r
            (λ s' w'. write_queue server queue (track_pending_outbound s' id seq_no body) w'))
        (write_message_broken (record s { message_queue = queue }) key sent id seq_no body known)

  -- The result of the last loop over a wire, by the room that the wire has.
  abbrev Splits : List (ℕ × ℕ × Bytes) → Session → ℕ → List Sent → Written → Type 0
  Splits queue s room sent r =
      (r.wire.sent ≡ sent ++ all_sealed (take room queue))
      × (r.session.pending_outbound ≡ track_all (take room queue) s.pending_outbound)
      × (r.session.message_queue ≡ tail (drop room queue))
      × (r.session.unencrypted_queue ≡ s.unencrypted_queue)
      × (r.raised ≡ failed (nonempty (drop room queue)))

  pub split :
      (queue : List (ℕ × ℕ × Bytes)) (s : Session) (key : Bytes) (room : ℕ) (sent : List Sent)
      → auth_key_of s.auth_data ≡ some key
      → Splits queue s room sent (write_queue server queue s (record { room = room; sent = sent }))
  unfolding salted track_pending_outbound
  split [] s key zero sent known =
      unfold write_queue in (sym (append-nil sent), refl, refl, refl, refl)
  split [] s key (suc room) sent known =
      unfold write_queue in (sym (append-nil sent), refl, refl, refl, refl)
  split ((id, seq_no, body) ∷ queue) s key zero sent known =
      subst (Splits ((id, seq_no, body) ∷ queue) s zero sent)
        (sym (write_queue_broken queue s key sent id seq_no body known))
        (sym (append-nil sent), refl, refl, refl, refl)
  split ((id, seq_no, body) ∷ queue) s key (suc room) sent known =
      let s' =
        track_pending_outbound (salted server (record s { message_queue = queue }) id) id seq_no
          body in
      let (a, b, c, d, e) = split queue s' key room (sent ++ sealed id seq_no body ∷ []) known in
      subst (Splits ((id, seq_no, body) ∷ queue) s (suc room) sent)
        (sym (write_queue_sent queue s key room sent id seq_no body known))
        (a ∙ append_assoc sent (sealed id seq_no body ∷ []) _, b, c, d, e)

  -- For a session with an auth key, the wire takes of the queue as many messages as it has room for, in
  -- order; these are kept for resending. If the wire breaks before the end, the next message is dropped
  -- with `Disconnection`, and the rest stays queued.
  pub write_queue_splits :
      (queue : List (ℕ × ℕ × Bytes)) (s : Session) (key : Bytes) (w : Wire)
      → auth_key_of s.auth_data ≡ some key
      → let r = write_queue server queue s w in
        let done = take w.room queue in
        let rest = drop w.room queue in
        (r.wire.sent ≡ w.sent ++ all_sealed done)
        × (r.session.pending_outbound ≡ track_all done s.pending_outbound)
        × (r.session.message_queue ≡ tail rest)
        × (r.session.unencrypted_queue ≡ s.unencrypted_queue)
        × (r.raised ≡ failed (nonempty rest))
  write_queue_splits queue s key w known = split queue s key w.room w.sent known

  -- Without an auth key a message is dropped with `Unreachable`, and the rest of the queue is not
  -- touched.
  write_queue_keyless :
      (message_id seq_no : ℕ) (body : Bytes) (queue : List (ℕ × ℕ × Bytes)) (s : Session) (w : Wire)
      → auth_key_of s.auth_data ≡ none
      → write_queue server ((message_id, seq_no, body) ∷ queue) s w ≡ record {
        session = record s { message_queue = queue };
        wire = w;
        raised = some unreachable;
      }
  unfolding write_queue write_message
  write_queue_keyless id seq_no body queue s w keyless = rw (keyless, write_message)
