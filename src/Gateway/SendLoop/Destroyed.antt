-- ===== src/Gateway/SendLoop/Destroyed.antt =====
-- client.py and _system_handlers.py: a client that destroys its own session stops the loop that writes.
use piltover.Base.{
  Bool, List, Option-cases, ap, arith, false, get, get-put, inl, inr, member, none, refl, some,
  subst, sym, true, ℕ, ◌∙◌, ◌≡◌,
}
use piltover.Tl.Codec.{Bytes}
use piltover.Session.{Session}
use piltover.Session.Lifecycle
use piltover.Session.Outbound
use piltover.Session.Outbound.{Outgoing}
use piltover.Session.MsgId.{pack_message}
use piltover.Session.Flush.{Server, Wire}
use piltover.Broker.{key_id}
use piltover.Manager
use piltover.Manager.{Manager, lookup}
use piltover.Manager.Ends.{finalize_heap}
use piltover.Gateway.{LruOps, Client, World}
use piltover.Gateway.Action.{Result, done, pure, ◌>>=◌, ◌>>◌}
use piltover.Gateway.Action.Keeps.{finally_state}
use piltover.Gateway.Requests.{Answer, Env, destroy_session, destroy_session_ok}
use piltover.Gateway.Gate.{on_session, enqueue}
use piltover.Gateway.Handlers
use piltover.Gateway.Handlers.{with_session, destroy_stored}
use piltover.Gateway.Worker.{Lookup}
use piltover.Session.Rpc.{mark_rpc_completed}
use piltover.Gateway.Process.{reply, process_request, answered, mark_completed, propagate}
use piltover.Gateway.SendLoop.{has_messages, drain}
use piltover.Gateway.SendLoop.Spins.{QuietHeap, Stuck, put_own-Quiet, refs_of, drain_spins}

-- A session that was emptied and then given a message.
reopened :
    (s : Session) (time stored : ℕ) (obj : Outgoing) (b : Bool)
    → let s' = Outbound.enqueue (Lifecycle.finalize s) time stored obj b in
      (s'.client ≡ none) × (has_messages s' ≡ true)
unfolding Lifecycle.finalize Outbound.enqueue Outbound.assign_seq Outbound.next_upd_seq
    Outbound.schedule_outbound_flush pack_message
reopened s time stored obj b = ground arith

destroy_own :
    {C D : Type 0} (ref id : ℕ) (s : Session) (w : World C D)
    → get ref w.manager.heap ≡ some s
    → key_id s.auth_data ≡ some id
    → lookup (some id) s.session_id w.manager.sessions ≡ some ref
    → Handlers.destroy_session ref s.session_id w ≡ (
      done (destroy_session_ok s.session_id),
      record w { manager = Manager.finalize w.manager ref },
    )
unfolding Handlers.destroy_session destroy_stored
destroy_own ref id s w e k found = rw (e, with_session, k, found) refl

-- The session, which the reply reopens, has no client.
after_destroy :
    {C D : Type 0} (env : Env) (refs : List ℕ) (ref id : ℕ) (s : Session) (w : World C D)
    (wire : Wire)
    → get ref w.manager.heap ≡ some s
    → key_id s.auth_data ≡ some id
    → QuietHeap refs ref w.manager.heap
    → Stuck refs w.client ref (
      enqueue env ref
          (destroy_session_ok s.session_id)
          true
          (record w { manager = Manager.finalize w.manager ref }),
      wire,
    )
unfolding enqueue
after_destroy env refs ref id s w wire e k quiet =
    let m = Manager.finalize w.manager ref in
    let s₁ = Lifecycle.finalize s in
    let obj = env.encode (destroy_session_ok s.session_id) in
    let s₂ = Outbound.enqueue s₁ env.time env.stored obj true in
    let heap : get ref m.heap ≡ some s₁ =
      ap (get ref) (finalize_heap w.manager ref id s e k)
      ∙ ground (arith, get-put ref ref s₁ w.manager.heap) in
    let (gone, more) = reopened s env.time env.stored obj true in
    let still : QuietHeap refs ref m.heap =
      subst (QuietHeap refs ref) (sym (finalize_heap w.manager ref id s e k))
        (put_own-Quiet refs ref s₁ w.manager.heap quiet) in
    rw (heap, on_session)
      (
        refl,
        (s₂, ground (arith, get-put ref ref s₂ m.heap), gone, more),
        put_own-Quiet refs ref s₂ m.heap still,
      )

-- Marking a call complete changes neither the messages nor the client of a session.
mark-Stuck :
    {C D : Type 0} (refs : List ℕ) (c : Client C D) (m ref : ℕ) (w : World C D) (wire : Wire)
    → Stuck refs c ref (w, wire)
    → Stuck refs c ref ((mark_completed m ref w).1, wire)
unfolding mark_completed
mark-Stuck refs c m ref w wire (same, (s, e, gone, more), quiet) =
    elim (Option-cases (mark_rpc_completed s.rpc m)) [
      | inl stuck ↦ rw (e, with_session, stuck) (same, (s, e, gone, more), quiet)
      | inr (rpc, f) ↦
          let s' : Session = record s { rpc = rpc } in
          rw (e, with_session, f, e, on_session)
            (
              same,
              (s', ground (arith, get-put ref ref s' w.manager.heap), gone, more),
              put_own-Quiet refs ref s' w.manager.heap quiet,
            )
    ]

module _ {C D : Type 0} (sessions : LruOps (ℕ × ℕ) ℕ C) (keys : LruOps ℕ Bytes D) where
  answered-destroy_session :
      (env : Env) (db : Lookup) (m ref id : ℕ) (s : Session) (w : World C D)
      → get ref w.manager.heap ≡ some s
      → key_id s.auth_data ≡ some id
      → lookup (some id) s.session_id w.manager.sessions ≡ some ref
      → (answered sessions keys env db m ref (destroy_session s.session_id) w).1
        ≡ enqueue env ref
            (destroy_session_ok s.session_id)
            true
            (record w { manager = Manager.finalize w.manager ref })
  unfolding answered process_request
  answered-destroy_session env db m ref id s w e k found =
      ap
        (λ (r : Result Answer × World C D).
          ((((λ _. r) >>= (λ a. pure (some a))) >>= (λ answer. reply env ref answer >> pure answer))
            w).1)
        (destroy_own ref id s w e k found)

  -- A session of a connection asks for its own destruction, while the other sessions of the connection
  -- have nothing to send. If the loop that writes is awake after that, it makes pass after pass, as
  -- many as are given, and neither comes to an end of them nor raises anything: the reply stands in
  -- the queue of a session that has no client any more. That the reply itself does not wake the loop,
  -- and something else has to, is not part of the statement.
  pub destroy_session_spins :
      (env : Env) (db : Lookup) (server : Server) (message_id ref id passes : ℕ) (s : Session)
      (w : World C D) (wire : Wire)
      → get ref w.manager.heap ≡ some s
      → key_id s.auth_data ≡ some id
      → lookup (some id) s.session_id w.manager.sessions ≡ some ref
      → member ref (sessions.values w.client.active_sessions) ≡ true
      → QuietHeap (refs_of sessions w.client) ref w.manager.heap
      → (drain sessions server passes (
        (propagate sessions keys env db message_id ref (destroy_session s.session_id) w).1,
        wire,
      )).0
        ≡ done false
  unfolding propagate
  destroy_session_spins env db server m ref id passes s w wire e k found active quiet =
      let q = destroy_session s.session_id in
      let refs = refs_of sessions w.client in
      let Stays : World C D → Type 0 = λ w'. Stuck refs w.client ref (w', wire) in
      let told : Stays (answered sessions keys env db m ref q w).1 =
        subst Stays (sym (answered-destroy_session env db m ref id s w e k found))
          (after_destroy env refs ref id s w wire e k quiet) in
      let left : Stays (propagate sessions keys env db m ref q w).1 =
        subst Stays
          (sym
            (finally_state Stays (answered sessions keys env db m ref q) (mark_completed m ref) w))
          (mark-Stuck refs w.client m ref _ wire told) in
      drain_spins sessions server w.client ref active passes _ left
