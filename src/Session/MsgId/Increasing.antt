-- ===== src/Session/MsgId/Increasing.antt =====
-- session.py: ids grow and carry the time, and sequence numbers count the content-related messages.
use piltover.Base.{
  Bool, List, [], arith, if◌then◌else◌, ℕ, ◌%◌, ◌*◌, ◌++◌, ◌+◌, ◌/◌, ◌<◌, ◌==◌, ◌^◌, ◌∷◌, ◌≡◌, ◌≤◌,
}
use piltover.Session.{MsgIdValues}
use piltover.Session.MsgId.{seconds, msg_id, is_content_related, get_outgoing_seq_no}

-- The lower half of an id is the offset of the message within its second.
pub record IsMsgId (id time : ℕ) (in_reply : Bool) : Type 0 where
  pub second : id / 2 ^ 32 ≡ seconds time
  pub reply_bits : id % 4 ≡ (if in_reply then 1 else 3)

abbrev Aligned : MsgIdValues → Type 0
Aligned v = v.offset % 4 ≡ 0

-- An id carries the second at which it was made and tells replies from other messages by its
-- remainder by 4, while fewer than 2^30 messages are sent in a second.
msg_id-IsMsgId :
    (v : MsgIdValues) (time : ℕ) (in_reply : Bool)
    → v.offset % 4 ≡ 0
    → v.offset + 8 ≤ 2 ^ 32
    → IsMsgId (msg_id v time in_reply).0 time in_reply
unfolding msg_id
msg_id-IsMsgId v time in_reply a h = record { second = ground arith; reply_bits = ground arith }

-- Ids that are made one after the other, with the times at which they are.
pub ids : MsgIdValues → List (ℕ × Bool) → List ℕ
ids v [] = []
ids v ((time, in_reply) ∷ calls) = let (id, v') = msg_id v time in_reply in id ∷ ids v' calls

abbrev NeverBack : ℕ → List (ℕ × Bool) → Type 0
NeverBack second [] = Unit {0}
NeverBack second ((time, _) ∷ calls) = (second ≤ seconds time) × NeverBack (seconds time) calls

abbrev pub Increasing : ℕ → List ℕ → Type 0
Increasing low [] = Unit {0}
Increasing low (x ∷ xs) = (low < x) × Increasing x xs

Increasing-weaken :
    {low low' : ℕ} (xs : List ℕ) → low' ≤ low → Increasing low xs → Increasing low' xs
Increasing-weaken [] h i = tt
Increasing-weaken (x ∷ xs) h i = (omega arith, i.1)

-- Above every id made so far, and at or above the new one.
step_bounds :
    (v : MsgIdValues) (time : ℕ) (in_reply : Bool)
    → v.last_time ≤ seconds time
    → v.offset + 4 ≤ 2 ^ 32
    → let (id, v') = msg_id v time in_reply in
      (v.last_time * 2 ^ 32 + v.offset + 3 < id)
      × (id ≤ v'.last_time * 2 ^ 32 + v'.offset + 3)
      × (v'.offset ≤ v.offset + 4)
      × (v'.last_time ≡ seconds time)
unfolding msg_id
step_bounds v time in_reply h room = ground arith

-- The offset of each message within its second, which starts anew with each second, leaves room for
-- the next.
abbrev pub HasRoom : ℕ → ℕ → List (ℕ × Bool) → Type 0
HasRoom second offset [] = Unit {0}
HasRoom second offset ((time, _) ∷ calls) =
    let now = seconds time in
    let next : ℕ = (if now == second then offset + 4 else 0) in
    (next + 4 ≤ 2 ^ 32) × HasRoom now next calls

-- As long as the clock's second never goes back and the offset within each second stays below 2^32,
-- each id is greater than the one before it.
pub ids-Increasing :
    (v : MsgIdValues) (calls : List (ℕ × Bool))
    → NeverBack v.last_time calls
    → v.offset + 4 ≤ 2 ^ 32
    → HasRoom v.last_time v.offset calls
    → Increasing (v.last_time * 2 ^ 32 + v.offset + 3) (ids v calls)
unfolding ids msg_id
ids-Increasing v [] mono low room = tt
ids-Increasing v ((time, in_reply) ∷ calls) (first, mono) low (next, room) =
    let b = step_bounds v time in_reply first low in
    let v' = (msg_id v time in_reply).1 in
    let mono' : NeverBack v'.last_time calls = mono in
    (b.0, Increasing-weaken (ids v' calls) b.1 (ids-Increasing v' calls mono' next room))

-- The sequence numbers of messages that are sent one after the other, by their constructor ids.
seq_nos : ℕ → List ℕ → List ℕ
seq_nos counter [] = []
seq_nos counter (tlid ∷ rest) =
    let (seq_no, counter') = get_outgoing_seq_no counter tlid in seq_no ∷ seq_nos counter' rest

-- How many of the messages are content-related.
related : List ℕ → ℕ
related [] = 0
related (tlid ∷ rest) = (if is_content_related tlid then 1 else 0) + related rest

-- After any messages, the number of the next one is twice the count of the content-related messages
-- before it, and one more exactly if it is content-related itself.
seq_nos-append :
    (counter : ℕ) (before : List ℕ) (tlid : ℕ)
    → seq_nos counter (before ++ tlid ∷ [])
      ≡ seq_nos counter before
        ++ (2 * (counter + related before) + (if is_content_related tlid then 1 else 0)) ∷ []
unfolding seq_nos related get_outgoing_seq_no
seq_nos-append counter [] tlid = ground arith
seq_nos-append counter (x ∷ before) tlid =
    ground (arith, seq_nos-append counter before tlid, seq_nos-append (counter + 1) before tlid)
