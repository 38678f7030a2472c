-- ===== src/Session/MsgId.antt =====
-- session.py: message ids and sequence numbers of the messages that the server sends.
pub mod Increasing
use piltover.Base.{
  Bool, List, [], false, if◌then◌else◌, not, ℕ, ◌*◌, ◌+◌, ◌/◌, ◌==◌, ◌^◌, ◌||◌, ◌∷◌,
}
use piltover.Session.{MsgIdValues, Session}

-- `int(time())` of a clock in microseconds
abbrev pub seconds : ℕ → ℕ
seconds now = now / 1000000

-- The new values and the id.
unfoldable pub msg_id : MsgIdValues → ℕ → Bool → ℕ × MsgIdValues
msg_id values time in_reply =
    let now = seconds time in
    let offset : ℕ = (if now == values.last_time then values.offset + 4 else 0) in
    (
      now * 2 ^ 32 + offset + (if in_reply then 1 else 3),
      record { last_time = now; offset = offset },
    )

-- `is_id_strictly_not_content_related` of piltover/tl/utils.py: acknowledgements, state requests and
-- infos, and containers.
unfoldable pub is_id_strictly_not_content_related : ℕ → Bool
is_id_strictly_not_content_related id =
    id == 0x62d6b459 || id == 0xda69fb52 || id == 0x04deb57d || id == 0x73f1f8dc

unfoldable pub is_id_strictly_content_related : ℕ → Bool
is_id_strictly_content_related id = id == 0xf35c6d01

-- `is_content_related(obj)`, by the object's constructor id
unfoldable pub is_content_related : ℕ → Bool
unfolding is_id_strictly_not_content_related
is_content_related id = not (is_id_strictly_not_content_related id)

-- The number and the new counter.
unfoldable pub get_outgoing_seq_no : ℕ → ℕ → ℕ × ℕ
get_outgoing_seq_no out_seq_no tlid =
    let ret = out_seq_no * 2 in
    if is_content_related tlid then (ret + 1, out_seq_no + 1) else (ret, out_seq_no)

-- `pack_message`: the id and the number of the message, and the session after it.
unfoldable pub pack_message : Session → ℕ → ℕ → Bool → (ℕ × ℕ) × Session
unfolding msg_id get_outgoing_seq_no
pack_message s time tlid in_reply =
    let (id, values) = msg_id s.msg_id_values time in_reply in
    let (seq_no, counter) = get_outgoing_seq_no s.out_seq_no tlid in
    ((id, seq_no), record s { msg_id_values = values; out_seq_no = counter })

-- `pack_container`: the messages inside, in order, then the container itself.
pack_all : Session → ℕ → List (ℕ × Bool) → List (ℕ × ℕ) × Session
pack_all s time [] = ([], s)
pack_all s time ((tlid, in_reply) ∷ objects) =
    let (m, s') = pack_message s time tlid in_reply in
    let (ms, s'') = pack_all s' time objects in (m ∷ ms, s'')

unfoldable pack_container : Session → ℕ → List (ℕ × Bool) → (List (ℕ × ℕ) × (ℕ × ℕ)) × Session
unfolding pack_all
pack_container s time objects =
    let (inner, s') = pack_all s time objects in
    let (outer, s'') = pack_message s' time 0x73f1f8dc false in ((inner, outer), s'')
