-- ===== src/Session/Flush/Complete.antt =====
-- A flush over a wire that does not break sends all that waits, and acknowledgement forgets it.
use piltover.Base.{
  Bool, Bool-cases, Dict, List, [], ap, arith, drop, false, get, get-remove, if◌then◌else◌, inl,
  inr, length, member, none, refl, remove, some, subst, suc, sym, take, zero, ℕ, ◌++◌, ◌+◌, ◌-◌,
  ◌||◌, ◌∙◌, ◌∷◌, ◌≡◌, ◌≤◌,
}
use mathlib.Core.List.{append-nil, append_assoc}
use mathlib.Core.Path.{ap₂}
use piltover.Tl.Codec.{Bytes}
use piltover.Session.{Session}
use piltover.Session.Flush.{
  Sent, in_clear, sealed, Server, Wire, Written, write_packet, salted, auth_key_of,
  write_unencrypted, write_pending, write_queue, resend_pending, write_session_queues, and_then,
  remove_all, ack_outbound,
}
use piltover.Session.Flush.Delivery.{
  all_sealed, all_plain, all_pending, track_all, tail, nonempty, failed, write_message_sent,
  write_queue_splits,
}

take-all {ℓ} : {A : Type ℓ} (n : ℕ) (xs : List A) → length xs ≤ n → take n xs ≡ xs
take-all zero [] h = refl
take-all zero (x ∷ xs) h = absurd (omega arith)
take-all (suc n) [] h = refl
take-all (suc n) (x ∷ xs) h = ap (◌∷◌ x) (take-all n xs (omega arith))

drop-all {ℓ} : {A : Type ℓ} (n : ℕ) (xs : List A) → length xs ≤ n → drop n xs ≡ []
drop-all zero [] h = refl
drop-all zero (x ∷ xs) h = absurd (omega arith)
drop-all (suc n) [] h = refl
drop-all (suc n) (x ∷ xs) h = drop-all n xs (omega arith)

all_written : Session → ℕ → List Sent → Written
all_written s room sent = record {
  session = s;
  wire = record { room = room; sent = sent };
  raised = none;
}

-- `length xs + n`, in a form that computes.
abbrev above {ℓ} : {A : Type ℓ} → List A → ℕ → ℕ
above [] n = n
above (x ∷ xs) n = suc (above xs n)

above-eq-add {ℓ} : {A : Type ℓ} (xs : List A) (n : ℕ) → above xs n ≡ length xs + n
above-eq-add [] n = omega arith
above-eq-add (x ∷ xs) n = omega (arith, above-eq-add xs n)

write_unencrypted_all :
    (queue : List (ℕ × Bytes)) (s : Session) (room : ℕ) (sent : List Sent)
    → write_unencrypted queue s (record { room = above queue room; sent = sent })
      ≡ all_written (record s { unencrypted_queue = [] }) room (sent ++ all_plain queue)
unfolding write_unencrypted write_packet all_written
write_unencrypted_all [] s room sent =
    ap (all_written (record s { unencrypted_queue = [] }) room) (sym (append-nil sent))
write_unencrypted_all ((id, body) ∷ queue) s room sent =
    write_unencrypted_all queue (record s { unencrypted_queue = queue }) room
      (sent ++ in_clear id body ∷ [])
    ∙ ap (all_written (record s { unencrypted_queue = [] }) room)
        (append_assoc sent (in_clear id body ∷ []) (all_plain queue))

-- What is sent again: all that is unacknowledged, if a reconnection asked for it.
abbrev resent : Session → List Sent
resent s = if s.resend_pending_on_connect then all_pending s.pending_outbound else []

-- A session that differs in its salts and its flag only.
record SameQueues (s s' : Session) : Type 0 where
  pending : s'.pending_outbound ≡ s.pending_outbound
  queue : s'.message_queue ≡ s.message_queue
  plain : s'.unencrypted_queue ≡ s.unencrypted_queue
  auth : s'.auth_data ≡ s.auth_data

SameQueues-refl : (s : Session) → SameQueues s s
SameQueues-refl s = record { pending = refl; queue = refl; plain = refl; auth = refl }

SameQueues-trans : (s t u : Session) → SameQueues s t → SameQueues t u → SameQueues s u
SameQueues-trans s t u h k = record {
  pending = k.pending ∙ h.pending;
  queue = k.queue ∙ h.queue;
  plain = k.plain ∙ h.plain;
  auth = k.auth ∙ h.auth;
}

regroup : (a b c d : List Sent) → ((a ++ b) ++ c) ++ d ≡ a ++ (b ++ (c ++ d))
regroup a b c d = simp append_assoc

module _ (server : Server) where
  SameQueues-salted : (s : Session) (id : ℕ) → SameQueues s (salted server s id)
  unfolding salted
  SameQueues-salted s id = record { pending = refl; queue = refl; plain = refl; auth = refl }

  write_pending_all :
      (pending : Dict (ℕ × Bytes)) (s : Session) (key : Bytes) (room : ℕ) (sent : List Sent)
      → auth_key_of s.auth_data ≡ some key
      → (s' : Session) × (write_pending server pending s
            (record { room = above pending room; sent = sent })
          ≡ all_written s' room (sent ++ all_pending pending))
        × SameQueues s s'
  unfolding write_pending all_written
  write_pending_all [] s key room sent known =
      (s, ap (all_written s room) (sym (append-nil sent)), SameQueues-refl s)
  write_pending_all ((id, (seq_no, body)) ∷ pending) s key room sent known =
      let t = salted server s id in
      let same = SameQueues-salted s id in
      let (s', e, k) =
        write_pending_all pending t key room (sent ++ sealed id seq_no body ∷ [])
          (ap auth_key_of same.auth ∙ known) in
      (
        s',
        ap (λ r. and_then r (λ s' w'. write_pending server pending s' w'))
              (write_message_sent server s key (above pending room) sent id seq_no body known)
            ∙ e
            ∙ ap (all_written s' room)
                (append_assoc sent (sealed id seq_no body ∷ []) (all_pending pending)),
        SameQueues-trans s t s' same k,
      )

  -- The second loop leaves the queues and the pending messages alone.
  resend_pending_all :
      (pending : Dict (ℕ × Bytes)) (s : Session) (key : Bytes) (room : ℕ) (sent : List Sent)
      → s.pending_outbound ≡ pending
      → auth_key_of s.auth_data ≡ some key
      → (s' : Session) × (room' : ℕ) × (resend_pending server s
            (record { room = above pending room; sent = sent })
          ≡ all_written s' room' (sent ++ resent s))
        × (room ≤ room')
        × SameQueues s s'
  unfolding resend_pending all_written
  resend_pending_all [] s key room sent e known =
      (s, room, ground (arith, append-nil sent), omega arith, SameQueues-refl s)
  resend_pending_all ((id, (seq_no, body)) ∷ pending) s key room sent e known =
      elim (Bool-cases s.resend_pending_on_connect) [
        | inl again ↦
            let t = record s { resend_pending_on_connect = false } in
            let (s', w, k) =
              write_pending_all ((id, (seq_no, body)) ∷ pending) t key room sent known in
            (
              s',
              room,
              ground (arith, again, e, w),
              omega arith,
              record { pending = k.pending; queue = k.queue; plain = k.plain; auth = k.auth },
            )
        | inr never ↦ (
          s,
          above ((id, (seq_no, body)) ∷ pending) room,
          ground (arith, never, e, append-nil sent),
          omega (arith, above-eq-add {A = ℕ × (ℕ × Bytes)} ((id, (seq_no, body)) ∷ pending) room),
          SameQueues-refl s,
        )
      ]

  -- The last loop, over a wire with room for the queue.
  finish :
      (s : Session) (key : Bytes) (w : Wire)
      → length s.message_queue ≤ w.room
      → auth_key_of s.auth_data ≡ some key
      → let r = write_queue server s.message_queue s w in
        (r.raised ≡ none)
        × (r.wire.sent ≡ w.sent ++ all_sealed s.message_queue)
        × (r.session.unencrypted_queue ≡ s.unencrypted_queue)
        × (r.session.message_queue ≡ [])
        × (r.session.pending_outbound ≡ track_all s.message_queue s.pending_outbound)
  finish s key w room known =
      let (sent, kept, left, plain, raised) =
        write_queue_splits server s.message_queue s key w known in
      let all = take-all w.room s.message_queue room in
      let none_left = drop-all w.room s.message_queue room in
      (
        raised ∙ ap (λ q. failed (nonempty q)) none_left,
        sent ∙ ap (λ q. w.sent ++ all_sealed q) all,
        plain,
        left ∙ ap tail none_left,
        kept ∙ ap (λ q. track_all q s.pending_outbound) all,
      )

  -- The result of a flush that sent everything.
  abbrev pub Flushed : Session → Wire → Written → Type 0
  Flushed s w r =
      (r.raised ≡ none)
      × (r.wire.sent
          ≡ w.sent ++ (all_plain s.unencrypted_queue ++ (resent s ++ all_sealed s.message_queue)))
      × (r.session.unencrypted_queue ≡ [])
      × (r.session.message_queue ≡ [])
      × (r.session.pending_outbound ≡ track_all s.message_queue s.pending_outbound)

  -- For a session with an auth key, over a wire with room for all of it, a flush sends the unencrypted
  -- messages, then what is to be sent again, then the queue, each in order. After it both queues are
  -- empty, and each message that was queued is, by its id, among what is kept for resending.
  pub write_session_queues_complete :
      (s : Session) (key : Bytes) (w : Wire)
      → auth_key_of s.auth_data ≡ some key
      → length s.unencrypted_queue + length s.pending_outbound + length s.message_queue ≤ w.room
      → Flushed s w (write_session_queues server s w)
  unfolding write_session_queues all_written
  write_session_queues_complete s key w known room =
      let more = w.room - (length plain + length pending + length queue) in
      let enough : w.room ≡ above plain (above pending (length queue + more)) = omega (
        arith,
        above-eq-add plain (above pending (length queue + more)),
        above-eq-add pending (length queue + more),
      ) in
      let s₁ = record s { unencrypted_queue = [] } in
      let first =
        ap (λ n. write_unencrypted plain s (record { room = n; sent = w.sent })) enough
        ∙ write_unencrypted_all plain s (above pending (length queue + more)) w.sent in
      let (s₂, room₂, second, left, same) =
        resend_pending_all pending s₁ key (length queue + more) (w.sent ++ all_plain plain) refl
          known in
      let w₂ : Wire = record { room = room₂; sent = (w.sent ++ all_plain plain) ++ resent s } in
      let third =
        ap (λ r. and_then (and_then r (resend_pending server)) next) first
        ∙ ap (λ r. and_then r next) second in
      let fits : length s₂.message_queue ≤ room₂ = omega (arith, ap length same.queue, left) in
      let (raised, sent, plain', queue', pending') =
        finish s₂ key w₂ fits (ap auth_key_of same.auth ∙ known) in
      subst (Flushed s w) (sym third) (
        raised,
        sent
            ∙ ap (λ q. ((w.sent ++ all_plain plain) ++ resent s) ++ all_sealed q) same.queue
            ∙ regroup w.sent (all_plain plain) (resent s) (all_sealed queue),
        plain' ∙ same.plain,
        queue',
        pending' ∙ ap₂ track_all same.queue same.pending,
      )
    where
      open s use {unencrypted_queue as plain, pending_outbound as pending, message_queue as queue}

      next : Session → Wire → Written
      next s' w' = write_queue server s'.message_queue s' w'

remove_all_lem :
    {V : Type 0} (ids : List ℕ) (m : Dict V) (j : ℕ)
    → get j (remove_all ids m) ≡ (if member j ids then none else get j m)
unfolding remove_all
remove_all_lem [] m j = refl
remove_all_lem (id ∷ ids) m j =
    ground (arith, remove_all_lem ids (remove id m) j, get-remove id j m)

-- An acknowledgement of any ids, in any order and with repetitions, removes those messages from what
-- is kept for resending, and no other.
get-ack_outbound :
    (s : Session) (msg_ids : List ℕ) (j : ℕ)
    → get j (ack_outbound s msg_ids).pending_outbound
      ≡ (if member j msg_ids then none else get j s.pending_outbound)
unfolding ack_outbound
get-ack_outbound s msg_ids j = remove_all_lem msg_ids s.pending_outbound j

-- The acknowledgements that arrive one after the other.
abbrev pub ack_each : List (List ℕ) → Session → Session
ack_each [] s = s
ack_each (ids ∷ acks) s = ack_each acks (ack_outbound s ids)

abbrev pub in_any : ℕ → List (List ℕ) → Bool
in_any j [] = false
in_any j (ids ∷ acks) = member j ids || in_any j acks

get-ack_each :
    (acks : List (List ℕ)) (s : Session) (j : ℕ)
    → get j (ack_each acks s).pending_outbound
      ≡ (if in_any j acks then none else get j s.pending_outbound)
get-ack_each [] s j = refl
get-ack_each (ids ∷ acks) s j =
    ground (arith, get-ack_each acks (ack_outbound s ids) j, get-ack_outbound s ids j)

-- After a flush for a session with an auth key, over a wire with room for all of it, and any
-- acknowledgements after that, what is kept for resending under an id is nothing if one of them has
-- the id, and else what the queue had under it at last, or what was kept before.
pub kept_until_acknowledged :
    (server : Server) (s : Session) (key : Bytes) (w : Wire) (acks : List (List ℕ)) (j : ℕ)
    → auth_key_of s.auth_data ≡ some key
    → length s.unencrypted_queue + length s.pending_outbound + length s.message_queue ≤ w.room
    → get j (ack_each acks (write_session_queues server s w).session).pending_outbound
      ≡ (if in_any j acks then none else get j (track_all s.message_queue s.pending_outbound))
kept_until_acknowledged server s key w acks j known room =
    let r = write_session_queues server s w in
    let (_, _, _, _, kept) = write_session_queues_complete server s key w known room in
    get-ack_each acks r.session j ∙ ap (λ p. if in_any j acks then none else get j p) kept
