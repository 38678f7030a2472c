-- ===== src/Tests/Session.antt =====
-- Concrete inputs for the theorems on piltover/session/session.py.
use piltover.Base.{
  Bool, List, [], arith, false, get, if◌then◌else◌, length, member, not, refl, replicate, some,
  take, true, ℕ, ◌*◌, ◌++◌, ◌+◌, ◌^◌, ◌||◌, ◌↔◌, ◌∷◌, ◌≡◌,
}
use piltover.Tl.Codec.{Bytes}
use piltover.Tl.LittleEndian.{from_le}
use piltover.Session.{MsgIdValues, AuthData, RpcTrack, Session, new_session}
use piltover.Session.MsgId.Increasing.{ids, Increasing, ids-Increasing}
use piltover.Session.Rpc.{rpc_completion_track_limit, mark_rpc_completed, wait_begin}
use piltover.Session.Rpc.Bounds.{IsTracked, newest, mark-IsTracked}
use piltover.Session.Rpc.Waiters.{mark_wakes_waiting}
use piltover.Session.Salts.{half_hour}
use piltover.Session.Flush.{
  in_clear, sealed, Server, disconnection, Wire, write_queue, write_session_queues,
}
use piltover.Session.Flush.Delivery.{write_queue_splits}
use piltover.Session.Flush.Complete.{
  Flushed, ack_each, kept_until_acknowledged, write_session_queues_complete,
}
use piltover.Session.Checks.{Packet, Notices, is_message_bad}
use piltover.Session.Checks.Verdict.{IsWellFormed, is_message_bad_exact, salt_known}

abbrev values : MsgIdValues
values = record { last_time = 10; offset = 4 }

abbrev calls : List (ℕ × Bool)
calls = (10500000, true) ∷ (10500001, false) ∷ (11000000, true) ∷ []

ids-Increasing_example : Increasing (10 * 2 ^ 32 + 7) (ids values calls)
ids-Increasing_example =
    ids-Increasing values calls (omega arith, (omega arith, (omega arith, tt))) (omega arith)
      (omega arith, (omega arith, (omega arith, tt)))

-- Two completed calls, one of which somebody waited for.
abbrev track : RpcTrack
track = record {
  completions = (4, true) ∷ [];
  completed_ids = 4 ∷ 8 ∷ [];
  completed_order = 4 ∷ 8 ∷ [];
}

track-IsTracked : IsTracked track
track-IsTracked = record { same = refl; distinct = (refl, (refl, tt)); bounded = omega arith }

mark-IsTracked_example :
    (t' : RpcTrack) × (mark_rpc_completed track 12 ≡ some t')
    × IsTracked t'
    × (t'.completed_order ≡ (
        if member 12 track.completed_ids
        then track.completed_order
        else newest rpc_completion_track_limit (track.completed_order ++ 12 ∷ [])))
mark-IsTracked_example = mark-IsTracked track 12 track-IsTracked

mark_wakes_waiting_example :
    (t' : RpcTrack) × (mark_rpc_completed (wait_begin track 12).1 12 ≡ some t')
    × (get 12 t'.completions ≡ some true)
unfolding wait_begin
mark_wakes_waiting_example = mark_wakes_waiting track 12 track-IsTracked refl

abbrev auth : AuthData
auth = record { auth_key_id = some 77; auth_key = some (1 ∷ []); perm_auth_key_id = some 78 }

abbrev fresh : Session
fresh = new_session 5 (some 1) (some auth)

-- A salt of the key and the number, in place of the HMAC.
abbrev salt_bytes : Bytes → ℕ → ℕ → Bytes
salt_bytes key id now = key ++ id ∷ now ∷ []

abbrev queue : List (ℕ × ℕ × Bytes)
queue = (5, 1, 50 ∷ []) ∷ (9, 3, 90 ∷ []) ∷ (13, 5, 130 ∷ []) ∷ []

abbrev server : Server
server = record { make_salt = salt_bytes; salt_key = 3 ∷ []; clock = λ id. 2 * half_hour }

-- One of three messages goes out, and one is lost.
write_queue_splits_example :
    let r = write_queue server queue fresh (record { room = 1; sent = in_clear 1 [] ∷ [] }) in
    (r.wire.sent ≡ in_clear 1 [] ∷ sealed 5 1 (50 ∷ []) ∷ [])
    × (r.session.pending_outbound ≡ (5, (1, 50 ∷ [])) ∷ [])
    × (r.session.message_queue ≡ (13, 5, 130 ∷ []) ∷ [])
    × (r.session.unencrypted_queue ≡ [])
    × (r.raised ≡ some disconnection)
write_queue_splits_example =
    write_queue_splits server queue fresh (1 ∷ []) (record { room = 1; sent = in_clear 1 [] ∷ [] })
      refl

abbrev busy : Session
busy = record fresh {
  unencrypted_queue = (1, 10 ∷ []) ∷ [];
  pending_outbound = (2, (1, 20 ∷ [])) ∷ [];
  resend_pending_on_connect = true;
  message_queue = queue;
}

abbrev wide : Wire
wide = record { room = 6; sent = [] }

write_session_queues_complete_example :
    Flushed server busy wide (write_session_queues server busy wide)
write_session_queues_complete_example =
    write_session_queues_complete server busy (1 ∷ []) wide refl (omega arith)

kept_until_acknowledged_example :
    get 9
      (ack_each
        ((5 ∷ 2 ∷ []) ∷ (13 ∷ []) ∷ [])
        (write_session_queues server busy wide).session).pending_outbound
    ≡ some (3, 90 ∷ [])
kept_until_acknowledged_example =
    kept_until_acknowledged server busy (1 ∷ []) wide ((5 ∷ 2 ∷ []) ∷ (13 ∷ []) ∷ []) 9 refl
      (omega arith)

-- A ping that was sent a second ago.
abbrev ping : Packet
ping = record {
  message_id = 100 * 2 ^ 32;
  seq_no = 1;
  salt = replicate 8 0;
  body = 0xec ∷ 0x77 ∷ 0xbe ∷ 0x7a ∷ [];
}

abbrev notices : Notices
notices = record {
  bad_msg_notification =
      λ id seq code. record { tlid = 0xa7eff811; is_updates = false; write = λ _. code ∷ [] };
  bad_server_salt =
      λ id seq salt. record { tlid = 0xedab447b; is_updates = false; write = λ _. salt };
}

is_message_bad_exact_example :
    (bad : Bool) × (s' : Session) × (is_message_bad notices fresh 101000000 0 ping true
      ≡ some (bad, s'))
    × ((bad ≡ false) ↔ (
        IsWellFormed ping (from_le (take 4 ping.body)) 101000000
        × ((not true || salt_known fresh ping) ≡ true)))
    × ((if bad then fresh else s') ≡ fresh)
    × (length s'.message_queue ≡ length fresh.message_queue + (if bad then 1 else 0))
is_message_bad_exact_example =
    is_message_bad_exact notices fresh 101000000 0 ping true (omega arith)
