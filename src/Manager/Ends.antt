-- ===== src/Manager/Ends.antt =====
-- session_manager.py: how sessions end.
use piltover.Base.{Option, [], ap, arith, get, if_intro, none, put, refl, some, ℕ, ◌∙◌, ◌≡◌}
use piltover.Session.{Session}
use piltover.Session.Lifecycle
use piltover.Broker.{key_id}
use piltover.Broker.Leaks.{IsSilent}
use piltover.Manager.{
  Manager, disconnect, same_key, lookup, ended, finalize, delayed_cleanup, schedule_leave,
}

pub schedule_leave-rest :
    (user_id exclude : Option ℕ) (m : Manager)
    → ((schedule_leave user_id exclude m).sessions ≡ m.sessions)
      × ((schedule_leave user_id exclude m).heap ≡ m.heap)
      × ((schedule_leave user_id exclude m).broker ≡ m.broker)
unfolding schedule_leave
schedule_leave-rest none exclude m = (refl, refl, refl)
schedule_leave-rest (some u) exclude m = ground arith

pub disconnect_heap :
    (m : Manager) (ref : ℕ) (s : Session)
    → get ref m.heap ≡ some s
    → (disconnect m ref).heap ≡ put ref (Lifecycle.disconnect s) m.heap
unfolding disconnect
disconnect_heap m ref s e =
    let m' : Manager = record m { heap = put ref (Lifecycle.disconnect s) m.heap } in
    rw (e, disconnect)
      (if_intro (λ (x : Manager). x.heap ≡ m'.heap) (same_key s.client none) refl
        (schedule_leave-rest s.user_id (some ref) m').1)

-- A session without a client and with nothing to send, now or again.
pub record IsIdle (s : Session) : Type 0 where
  pub client : s.client ≡ none
  pub messages : s.message_queue ≡ []
  pub plain : s.unencrypted_queue ≡ []
  pub pending : s.pending_outbound ≡ []
  pub calls : s.rpc.completed_ids ≡ []

-- The end of a session that has a key: it is not found any more, holds no messages and no client, and
-- the broker, which knew it under its own ids only, does not know it.
pub record IsGone (m : Manager) (ref : ℕ) (s : Session) : Type 0 where
  pub unregistered : lookup (key_id s.auth_data) s.session_id m.sessions ≡ none
  pub idle : (s' : Session) × (get ref m.heap ≡ some s') × IsIdle s'
  pub silent : IsSilent m.broker ref

finalize_lem :
    (m : Manager) (ref key : ℕ) (s : Session)
    → get ref m.heap ≡ some s
    → key_id s.auth_data ≡ some key
    → finalize m ref ≡ schedule_leave s.user_id none (ended m ref key s)
unfolding finalize
finalize_lem m ref key s e k = rw (e, finalize, k)

pub finalize_heap :
    (m : Manager) (ref key : ℕ) (s : Session)
    → get ref m.heap ≡ some s
    → key_id s.auth_data ≡ some key
    → (finalize m ref).heap ≡ put ref (Lifecycle.finalize s) m.heap
unfolding ended
finalize_heap m ref key s e k =
    ap (λ (x : Manager). x.heap) (finalize_lem m ref key s e k)
    ∙ (schedule_leave-rest s.user_id none (ended m ref key s)).1

-- When the sleep of a cleanup ends, a session that has a client again stays as it is, and so does all
-- the rest.
delayed_cleanup_spares :
    (m : Manager) (ref client : ℕ) (s : Session)
    → get ref m.heap ≡ some s
    → s.client ≡ some client
    → delayed_cleanup m ref ≡ m
unfolding delayed_cleanup
delayed_cleanup_spares m ref client s e there = rw (e, delayed_cleanup, there)
