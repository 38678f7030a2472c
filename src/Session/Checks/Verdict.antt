-- ===== src/Session/Checks/Verdict.antt =====
-- session.py: exactly which messages pass, and what a refusal does to the session.
use piltover.Base.{
  Bool, Bool-cases, [], ap, arith, false, if◌then◌else◌, inl, inr, length, length-append,
  length-take, not, refl, some, take, true, ℕ, ◌%◌, ◌&&◌, ◌*◌, ◌+◌, ◌/◌, ◌==◌, ◌^◌, ◌||◌, ◌↔◌, ◌∙◌,
  ◌∷◌, ◌≡◌, ◌≤◌,
}
use piltover.Tl.Codec.{Bytes}
use piltover.Tl.Vector.{same_bytes}
use piltover.Tl.Int
use piltover.Tl.Int.{int}
use piltover.Base.Ints.{pos}
use piltover.Tl.LittleEndian.{from_le}
use piltover.Session.{Session}
use piltover.Session.MsgId.{
  is_id_strictly_not_content_related, is_id_strictly_content_related, pack_message,
}
use piltover.Session.Outbound.{Outgoing, enqueue, assign_seq, schedule_outbound_flush}
use piltover.Session.Checks.{Packet, Notices, second_us, error_code, is_message_bad, answer}

-- The second of the client's clock in a message id.
abbrev sent_us : Packet → ℕ
sent_us p = p.message_id / 2 ^ 32 * second_us

-- What the protocol asks of a message: a client's id, not more than 300 seconds old nor 30 seconds
-- ahead, and a sequence number whose parity fits the constructor.
pub record IsWellFormed (p : Packet) (inner_id time : ℕ) : Type 0 where
  pub client_id : p.message_id % 4 ≡ 0
  pub recent : time ≤ sent_us p + 300 * second_us
  pub started : sent_us p ≤ time + 30 * second_us
  pub even : is_id_strictly_not_content_related inner_id ≡ true → p.seq_no % 2 ≡ 0
  pub odd : is_id_strictly_content_related inner_id ≡ true → p.seq_no % 2 ≡ 1

-- The chain of tests lets a message through exactly when it is well formed.
error_code_iff :
    (p : Packet) (inner_id time : ℕ)
    → (error_code p inner_id time ≡ 0) ↔ IsWellFormed p inner_id time
unfolding error_code
error_code_iff p inner_id time = (
  λ h. record {
    client_id = ground arith;
    recent = ground arith;
    started = ground arith;
    even = λ e. ground arith;
    odd = λ e. ground arith;
  },
  λ h. ground (arith, h.even, h.odd),
)

queue-schedule : (s : Session) → (schedule_outbound_flush s).message_queue ≡ s.message_queue
unfolding schedule_outbound_flush
queue-schedule s = ground arith

queue-assign_seq :
    (s : Session) (obj : Outgoing) (stored : ℕ)
    → (assign_seq s obj stored).1.message_queue ≡ s.message_queue
unfolding assign_seq
queue-assign_seq s obj stored = ground arith

length-enqueue :
    (s : Session) (time stored : ℕ) (obj : Outgoing) (in_reply : Bool)
    → length (enqueue s time stored obj in_reply).message_queue ≡ length s.message_queue + 1
unfolding enqueue pack_message
length-enqueue s time stored obj in_reply =
    ap length (queue-schedule _)
    ∙ length-append (assign_seq s obj stored).1.message_queue (_ ∷ [])
    ∙ ap (λ q. length q + 1) (queue-assign_seq s obj stored)

inner_id-read :
    (bytes : Bytes)
    → 4 ≤ length bytes
    → Int.read_bytes int (take 4 bytes) false ≡ some (pos (from_le (take 4 bytes)))
unfolding Int.read_bytes Int.of_bits
inner_id-read bytes h = ground (arith, length-take 4 bytes)

-- The salt is one of the two that the session accepts.
abbrev pub salt_known : Session → Packet → Bool
salt_known s p = same_bytes p.salt s.salt_now.salt || same_bytes p.salt s.salt_prev.salt

abbrev Exact : Session → Packet → ℕ → Bool → Bool × Session → Type 0
Exact s p code check_salt (bad, s') =
    ((bad ≡ false) ↔ ((code ≡ 0) × ((not check_salt || salt_known s p) ≡ true)))
    × ((if bad then s else s') ≡ s)
    × (length s'.message_queue ≡ length s.message_queue + (if bad then 1 else 0))

module _ (notices : Notices) where
  answer-Exact :
      (s : Session) (time stored : ℕ) (p : Packet) (check_salt : Bool) (code : ℕ)
      → Exact s p code check_salt (answer notices s time stored p check_salt code)
  unfolding answer
  answer-Exact s time stored p check_salt code = elim (Bool-cases (code == 0)) [
    | inl good ↦ elim (Bool-cases (check_salt && not (salt_known s p))) [
      | inl wrong ↦ rw (good, wrong) (ground arith, refl, length-enqueue s time stored _ true)
      | inr right ↦ rw (good, right) (ground arith, refl, ground arith)
    ]
    | inr bad ↦ rw bad (ground arith, refl, length-enqueue s time stored _ true)
  ]

  -- A message with a constructor id is judged without fail. It passes exactly if it is well formed
  -- and, where salts are checked, carries one of the two salts of the session; then the session is
  -- unchanged. Otherwise exactly one answer is queued.
  pub is_message_bad_exact :
      (s : Session) (time stored : ℕ) (p : Packet) (check_salt : Bool)
      → 4 ≤ length p.body
      → (bad : Bool) × (s' : Session) × (is_message_bad notices s time stored p check_salt
          ≡ some (bad, s'))
        × ((bad ≡ false) ↔ (
            IsWellFormed p (from_le (take 4 p.body)) time
            × ((not check_salt || salt_known s p) ≡ true)))
        × ((if bad then s else s') ≡ s)
        × (length s'.message_queue ≡ length s.message_queue + (if bad then 1 else 0))
  unfolding is_message_bad
  is_message_bad_exact s time stored p check_salt h =
      let id = from_le (take 4 p.body) in
      let code = error_code p id time in
      let (bad, s') = answer notices s time stored p check_salt code in
      let (passes, same, queued) = answer-Exact s time stored p check_salt code in
      let formed = error_code_iff p id time in
      (
        bad,
        s',
        rw (inner_id-read p.body h, is_message_bad),
        (λ e. (formed.0 (passes.0 e).0, (passes.0 e).1), λ (w, k). passes.1 (formed.1 w, k)),
        same,
        queued,
      )
