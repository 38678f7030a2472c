-- ===== src/Session/Checks.antt =====
-- `is_message_bad` of session.py: which messages of a client are refused, and with what answer.
pub mod Verdict
use piltover.Base.{
  Bool, Option, false, if_intro, if◌then◌else◌, ltb, none, not, refl, some, subst, take, true, ℕ,
  ◌%◌, ◌&&◌, ◌*◌, ◌+◌, ◌/◌, ◌==◌, ◌^◌, ◌||◌, ◌≡◌,
}
use piltover.Base.Ints.{ℤ, pos, negsuc}
use piltover.Tl.Codec.{Bytes}
use piltover.Tl.Vector.{same_bytes}
use piltover.Tl.Int
use piltover.Tl.Int.{int}
use piltover.Session.{Session}
use piltover.Session.MsgId.{is_id_strictly_not_content_related, is_id_strictly_content_related}
use piltover.Session.Outbound.{Outgoing, enqueue, enqueue-rpc}

-- `DecryptedMessagePacket` of the `mtproto` package, as far as it is read; `body` is its `data`
pub record Packet : Type 0 where
  pub message_id : ℕ
  pub seq_no : ℕ
  pub salt : Bytes
  pub body : Bytes

abbrev pub second_us : ℕ
second_us = 1000000

-- The chain of tests; 0 if none holds. Both bounds compare with a float clock, here in microseconds.
unfoldable pub error_code : Packet → ℕ → ℕ → ℕ
error_code packet inner_id time =
    let sent = packet.message_id / 2 ^ 32 * second_us in
    if not (packet.message_id % 4 == 0)
    then 18
    else if ltb (sent + 300 * second_us) time
    then 16
    else if ltb (time + 30 * second_us) sent
    then 17
    else if packet.seq_no % 2 == 1 && is_id_strictly_not_content_related inner_id
    then 34
    else if packet.seq_no % 2 == 0 && is_id_strictly_content_related inner_id
    then 35
    else 0

-- The two answers, whose classes are generated.
pub record Notices : Type 0 where
  pub bad_msg_notification : ℕ → ℕ → ℕ → Outgoing
  pub bad_server_salt : ℕ → ℕ → Bytes → Outgoing

abbrev number : ℤ → ℕ
number (pos n) = n
number (negsuc n) = 0

module _ (notices : Notices) where
  answer : Session → ℕ → ℕ → Packet → Bool → ℕ → Bool × Session
  answer s time stored packet check_salt code =
      if not (code == 0)
      then (
        true,
        enqueue s time stored (notices.bad_msg_notification packet.message_id packet.seq_no code)
            true,
      )
      else if check_salt
          && not (same_bytes packet.salt s.salt_now.salt || same_bytes packet.salt s.salt_prev.salt)
      then (
        true,
        enqueue s time stored
            (notices.bad_server_salt packet.message_id packet.seq_no s.salt_now.salt) true,
      )
      else (false, s)

  -- `none` is `struct.error`: the data is shorter than a constructor id.
  unfoldable pub is_message_bad : Session → ℕ → ℕ → Packet → Bool → Option (Bool × Session)
  unfolding answer
  is_message_bad s time stored packet check_salt =
      elim (Int.read_bytes int (take 4 packet.body) false) [
        | none ↦ none
        | some inner_id ↦
            some (answer s time stored packet check_salt (error_code packet (number inner_id) time))
      ]

  answer-rpc :
      (s : Session) (time stored : ℕ) (packet : Packet) (check_salt : Bool) (code : ℕ)
      → (answer s time stored packet check_salt code).1.rpc ≡ s.rpc
  unfolding answer
  answer-rpc s time stored p check_salt code =
      if_intro (λ (r : Bool × Session). r.1.rpc ≡ s.rpc) (not (code == 0))
        (enqueue-rpc s time stored (notices.bad_msg_notification p.message_id p.seq_no code) true)
        (if_intro (λ (r : Bool × Session). r.1.rpc ≡ s.rpc)
          (check_salt
            && not (same_bytes p.salt s.salt_now.salt || same_bytes p.salt s.salt_prev.salt))
          (enqueue-rpc s time stored (notices.bad_server_salt p.message_id p.seq_no s.salt_now.salt)
            true)
          refl)

  -- A check does not touch the record of completed calls.
  pub is_message_bad-rpc :
      (s s' : Session) (time stored : ℕ) (packet : Packet) (check_salt bad : Bool)
      → is_message_bad s time stored packet check_salt ≡ some (bad, s')
      → s'.rpc ≡ s.rpc
  unfolding is_message_bad
  is_message_bad-rpc s s' time stored p check_salt bad e =
      subst Untouched e (go (Int.read_bytes int (take 4 p.body) false))
    where
      Untouched : Option (Bool × Session) → Type 0
      Untouched none = Unit
      Untouched (some r) = r.1.rpc ≡ s.rpc

      go :
          (o : Option ℤ)
          → Untouched (elim o [
            | none ↦ none
            | some id ↦ some (answer s time stored p check_salt (error_code p (number id) time))
          ])
      go none = tt
      go (some id) = answer-rpc s time stored p check_salt (error_code p (number id) time)
