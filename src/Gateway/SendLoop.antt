-- ===== src/Gateway/SendLoop.antt =====
-- client.py: the loop that writes what the sessions of a connection have queued. What wakes it,
-- `message_available`, is not modelled.
pub mod Spins
pub mod Destroyed
use piltover.Base.{
  Bool, Dict, List, Option, [], false, get, none, not, put, some, suc, true, zero, ℕ, ◌||◌, ◌∷◌,
}
use piltover.Session.{Session}
use piltover.Session.Flush.{Failure, Server, Wire, disconnection, unreachable, write_session_queues}
use piltover.Manager
use piltover.Manager.{Manager}
use piltover.Gateway.{LruOps, World}
use piltover.Gateway.Action
use piltover.Gateway.Action.{Action, Done, done, raised, pure, ◌>>=◌, ◌>>◌}

abbrev pub Sending : Type 0 → Type 0 → Type 0
Sending C D = World C D × Wire

abbrev pub has_messages : Session → Bool
has_messages s = elim s.unencrypted_queue [
  | _ ∷ _ ↦ true
  | [] ↦ elim s.message_queue [ [] ↦ false | _ ∷ _ ↦ true ]
]

abbrev pub waiting : Option Session → Bool
waiting none = false
waiting (some s) = has_messages s

unfoldable pub any_waiting : Dict Session → List ℕ → Bool
any_waiting heap [] = false
any_waiting heap (ref ∷ refs) = let rest = any_waiting heap refs in waiting (get ref heap) || rest

-- The session after its queues were written, and the manager if the write broke off.
abbrev pub after_flush :
    {C D : Type 0} → ℕ → World C D → Wire → Option Failure → Action (Sending C D) Done
after_flush ref w wire none _ = (done tt, (w, wire))
after_flush ref w wire (some disconnection) _ =
    (done tt, (record w { manager = Manager.disconnect w.manager ref }, wire))
after_flush ref w wire (some unreachable) _ = (raised Action.other, (w, wire))

-- `_flush_session_outbound`
unfoldable pub flush_session : {C D : Type 0} → Server → ℕ → Action (Sending C D) Done
unfolding write_session_queues
flush_session server ref (w, wire) = elim (get ref w.manager.heap) [
  | none ↦ (raised Action.other, (w, wire))
  | some s ↦ elim s.client [
    | none ↦ (done tt, (w, wire))
    | some _ ↦
        let r = write_session_queues server s wire in
        let m : Manager = record w.manager { heap = put ref r.session w.manager.heap } in
        after_flush ref (record w { manager = m }) r.wire r.raised (w, wire)
  ]
]

unfoldable pub flush_all : {C D : Type 0} → Server → List ℕ → Action (Sending C D) Done
unfolding flush_session
flush_all server [] = pure tt
flush_all server (ref ∷ refs) = do flush_session server ref; flush_all server refs

module _ {C D : Type 0} (sessions : LruOps (ℕ × ℕ) ℕ C) (server : Server) where
  unfoldable pub outbound_sessions : World C D → List ℕ
  outbound_sessions w = w.client.keygen_session ∷ sessions.values w.client.active_sessions

  unfoldable pub has_pending_outbound : World C D → Bool
  unfolding outbound_sessions any_waiting
  has_pending_outbound w = any_waiting w.manager.heap (outbound_sessions w)

  -- One pass of the inner `while`, over the sessions of its start.
  unfoldable pub flush_round : Action (Sending C D) Done
  unfolding flush_all outbound_sessions
  flush_round (w, wire) = flush_all server (outbound_sessions w) (w, wire)

  -- The inner `while` for a number of passes, once the loop is awake: whether it ended.
  unfoldable pub drain : ℕ → Action (Sending C D) Bool
  unfolding flush_round has_pending_outbound
  drain zero (w, wire) = (done (not (has_pending_outbound w)), (w, wire))
  drain (suc passes) (w, wire) =
      let more = flush_round >>= (λ _. drain passes) in
      elim (has_pending_outbound w) [ false ↦ (done true, (w, wire)) | true ↦ more (w, wire) ]
