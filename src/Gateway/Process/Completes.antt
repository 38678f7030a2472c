-- ===== src/Gateway/Process/Completes.antt =====
-- client.py: every request ends as a completed call of its session.
use piltover.Base.{
  List, Option, Option-cases, [], ap, arith, false, get, get-put, if_intro, inl, inr, member, none,
  put, refl, some, subst, sym, true, ℕ, ◌∙◌, ◌∷◌, ◌≡◌,
}
use piltover.Base.Ints.{ℤ}
use piltover.Tl.Codec.{Bytes}
use piltover.Session.{RpcTrack, Session}
use piltover.Session.Rpc.{mark_rpc_completed}
use piltover.Session.Flush
use piltover.Session.MsgId.{seconds}
use piltover.Session.Rpc.Bounds.{IsTracked, mark-IsTracked}
use piltover.Session.Rpc.Waiters.{member-marked}
use piltover.Broker.{key_id}
use piltover.Gateway.{LruOps, World}
use piltover.Gateway.Action.{Action, pure, ◌>>=◌, ◌>>◌}
use piltover.Gateway.Action.Keeps.{Keeps, bind-Keeps, then-Keeps, test-Keeps, finally_state}
use piltover.Gateway.Requests.{
  Answer, Env, Query, Call, destroy_session, get_future_salts, init_connection, invoke_after_msg,
  invoke_after_msgs, invoke_with_layer, invoke_without_updates, msgs_ack, msgs_state_req, ping,
  ping_delay_disconnect, rpc_drop_answer, worker,
}
use piltover.Gateway.Gate.{
  on_session, AuthGateResult, ok, drop, unregistered, reject, respond_auth_key_unregistered,
  auth_gate,
}
use piltover.Gateway.Sessions.{drop_auth_key}
use piltover.Gateway.Handlers
use piltover.Gateway.Handlers.{
  with_session, wait_for_invoke_after, set_layer, reschedule, is_positive, noted,
}
use piltover.Gateway.Worker.{Lookup}
use piltover.Gateway.Steps.{
  wait_for_invoke_after-Keeps, set_layer-Keeps, destroy_stored-Keeps, run_worker-Keeps,
}
use piltover.Gateway.Tracks.{
  on_session-Tracks, TracksWorld, with_session-Keeps, disconnect-Tracks, same-Tracks,
  enqueue-Tracks,
}
use piltover.Gateway.Process.{
  process_request, propagate, run_gated, gated, answered, reply, mark_completed, timed_out_answer,
}

noted-rpc : (s : Session) → (noted s).rpc ≡ s.rpc
noted-rpc s = ground arith

marked-IsTracked :
    (t t' : RpcTrack) (m : ℕ) → mark_rpc_completed t m ≡ some t' → IsTracked t → IsTracked t'
marked-IsTracked t t' m e h =
    let (u, f, h', _) = mark-IsTracked t m h in let eq : u ≡ t' = cc in subst IsTracked eq h'

module _ {C D : Type 0} (sessions : LruOps (ℕ × ℕ) ℕ C) (keys : LruOps ℕ Bytes D) (ref : ℕ) where
  abbrev P : World C D → Type 0
  P = TracksWorld ref

  abbrev Kept : {A : Type 0} → Action (World C D) A → Type 0
  Kept = Keeps P

  drop_auth_key-Tracks :
      (id j : ℕ) (w : World C D)
      → TracksWorld ref w
      → TracksWorld ref (drop_auth_key sessions keys id j w)
  unfolding drop_auth_key
  drop_auth_key-Tracks id j w t = elim (Option-cases (get j w.manager.heap)) [
    | inl e ↦ rw (e, drop_auth_key) t
    | inr (s, e) ↦ rw (e, drop_auth_key) (disconnect-Tracks ref j w.manager t)
  ]

  pub respond-Tracks :
      (env : Env) (m j id : ℕ) (w : World C D)
      → TracksWorld ref w
      → TracksWorld ref (respond_auth_key_unregistered sessions keys env m j id w)
  unfolding respond_auth_key_unregistered
  respond-Tracks env m j id w t =
      if_intro (TracksWorld ref) (member id w.client.rejected_auth_keys) t
        (drop_auth_key-Tracks id j _ (enqueue-Tracks ref env j _ true (reject id w) t))

  gated-Keeps :
      (env : Env) (db : Lookup) (m j id : ℕ) (call : Call) (r : AuthGateResult)
      → Kept (gated sessions keys env db m j id call r)
  unfolding gated
  gated-Keeps env db m j id call drop = λ w t. t
  gated-Keeps env db m j id call unregistered = λ w t. respond-Tracks env m j id w t
  gated-Keeps env db m j id call ok = run_worker-Keeps ref env db m j call

  run_gated-Keeps :
      (env : Env) (db : Lookup) (m j : ℕ) (call : Call)
      → Kept (run_gated sessions keys env db m j call)
  unfolding run_gated
  run_gated-Keeps env db m j call = with_session-Keeps ref j _ (λ s w e t.
      elim (Option-cases (key_id s.auth_data)) [
        | inl k ↦ rw k t
        | inr (id, k) ↦
            rw k (gated-Keeps env db m j id call (auth_gate w (seconds env.time) id call.bind) w t)
      ])

  reschedule-Tracks :
      (now : ℕ) (delay : ℤ) (w : World C D)
      → TracksWorld ref w
      → TracksWorld ref (reschedule now delay w)
  unfolding reschedule
  reschedule-Tracks now delay w t = elim (Option-cases w.client.disconnect_timeout) [
    | inl e ↦ rw e t
    | inr (d, e) ↦ rw e (if_intro (TracksWorld ref) (is_positive delay) t t)
  ]

  destroy_session-Keeps : (j id : ℕ) → Kept (Handlers.destroy_session j id)
  unfolding Handlers.destroy_session
  destroy_session-Keeps j id =
      with_session-Keeps ref j _ (λ s w e t. destroy_stored-Keeps ref (key_id s.auth_data) id w t)

  get_future_salts-Keeps :
      (env : Env) (m j : ℕ) (num : ℤ) → Kept (Handlers.get_future_salts env m j num)
  unfolding Handlers.get_future_salts
  get_future_salts-Keeps env m j num = with_session-Keeps ref j _ (λ s w e t.
      elim (Option-cases (key_id s.auth_data)) [ inl k ↦ rw k t | inr (id, k) ↦ rw k t ])

  some-Keeps : (m : Action (World C D) Answer) → Kept m → Kept (m >>= λ a. pure (some a))
  some-Keeps m k = bind-Keeps P m (λ a. pure (some a)) k (λ a w t. t)

  after-Keeps :
      (env : Env) (m j : ℕ) (ids : List ℕ) (k : Action (World C D) (Option Answer))
      → Kept k
      → Kept (
          wait_for_invoke_after env j ids >>= λ ended. elim ended [
            | true ↦ k
            | false ↦ pure (timed_out_answer m)
          ])
  after-Keeps env m j ids k keep =
      bind-Keeps P (wait_for_invoke_after env j ids)
        (λ ended. elim ended [ true ↦ k | false ↦ pure (timed_out_answer m) ])
        (wait_for_invoke_after-Keeps ref env j ids)
        (test-Keeps P k (pure (timed_out_answer m)) keep (λ w t. t))

  process_request-Keeps :
      (env : Env) (db : Lookup) (m j : ℕ) (q : Query)
      → Kept (process_request sessions keys env db m j q)
  unfolding process_request
  process_request-Keeps env db m j (msgs_ack ids) = λ w t.
      same-Tracks ref j (λ s. Flush.ack_outbound s ids) w (λ s. unfold Flush.ack_outbound in refl) t
  process_request-Keeps env db m j (msgs_state_req ids) = λ w t. t
  process_request-Keeps env db m j (ping id) = λ w t. t
  process_request-Keeps env db m j (ping_delay_disconnect id delay) =
      λ w t. reschedule-Tracks env.time delay w t
  process_request-Keeps env db m j (invoke_with_layer layer q) =
      then-Keeps P (set_layer env j layer) (process_request sessions keys env db m j q)
        (set_layer-Keeps ref env j layer) (process_request-Keeps env db m j q)
  process_request-Keeps env db m j (invoke_after_msg id q) =
      after-Keeps env m j (id ∷ []) (process_request sessions keys env db m j q)
        (process_request-Keeps env db m j q)
  process_request-Keeps env db m j (invoke_after_msgs ids q) =
      after-Keeps env m j ids (process_request sessions keys env db m j q)
        (process_request-Keeps env db m j q)
  process_request-Keeps env db m j (invoke_without_updates q) = λ w t.
      process_request-Keeps env db m j q _
        (same-Tracks ref j (λ s. record s { no_updates = true }) w (λ s. refl) t)
  process_request-Keeps env db m j (init_connection q) =
      λ w t. process_request-Keeps env db m j q _ (same-Tracks ref j noted w noted-rpc t)
  process_request-Keeps env db m j (destroy_session id) =
      some-Keeps (Handlers.destroy_session j id) (destroy_session-Keeps j id)
  process_request-Keeps env db m j rpc_drop_answer = λ w t. t
  process_request-Keeps env db m j (get_future_salts num) =
      some-Keeps (Handlers.get_future_salts env m j num) (get_future_salts-Keeps env m j num)
  process_request-Keeps env db m j (worker call) = run_gated-Keeps env db m j call

  reply-Keeps : (env : Env) (j : ℕ) (answer : Option Answer) → Kept (reply env j answer)
  reply-Keeps env j none = λ w t. t
  reply-Keeps env j (some answer) = λ w t. enqueue-Tracks ref env j answer true w t

  answered-Keeps :
      (env : Env) (db : Lookup) (m j : ℕ) (q : Query) → Kept (answered sessions keys env db m j q)
  unfolding answered
  answered-Keeps env db m j q =
      bind-Keeps P (process_request sessions keys env db m j q)
        (λ answer. reply env j answer >> pure answer) (process_request-Keeps env db m j q)
        (λ answer.
          then-Keeps P (reply env j answer) (pure answer) (reply-Keeps env j answer) (λ w t. t))

  -- The session of a request afterwards.
  abbrev pub Completed : ℕ → World C D → Type 0
  Completed m w =
      (s : Session) × (get ref w.manager.heap ≡ some s)
      × IsTracked s.rpc
      × (member m s.rpc.completed_ids ≡ true)

  mark_completed_heap :
      (m : ℕ) (s : Session) (rpc : RpcTrack) (w : World C D)
      → get ref w.manager.heap ≡ some s
      → mark_rpc_completed s.rpc m ≡ some rpc
      → (mark_completed m ref w).1.manager.heap ≡ put ref (record s { rpc = rpc }) w.manager.heap
  unfolding mark_completed
  mark_completed_heap m s rpc w e marked = rw (e, with_session, marked, e, on_session) refl

  mark_completed_lem :
      (m : ℕ) (w : World C D) → TracksWorld ref w → Completed m (mark_completed m ref w).1
  mark_completed_lem m w (s, e, t) =
      let (rpc, marked, t', order) = mark-IsTracked s.rpc m t in
      let s' : Session = record s { rpc = rpc } in
      (
        s',
        ap (get ref) (mark_completed_heap m s rpc w e marked)
            ∙ ground (arith, get-put ref ref s' w.manager.heap),
        t',
        member-marked s.rpc rpc m t t' order,
      )

  mark_completed-Keeps : (m j : ℕ) → Kept (mark_completed m j)
  unfolding mark_completed
  mark_completed-Keeps m j = with_session-Keeps ref j _ (λ s w e t.
      elim (Option-cases (mark_rpc_completed s.rpc m)) [
        | inl stuck ↦ rw stuck t
        | inr (rpc, f) ↦ rw f (
            on_session-Tracks ref j (λ s'. record s' { rpc = rpc }) w
              (λ s₁ e₁ t₁. let eq : s₁ ≡ s = cc in marked-IsTracked s.rpc rpc m f (rw (← eq) t₁)) t)
      ])

  pub propagate-Keeps :
      (env : Env) (db : Lookup) (m j : ℕ) (q : Query) → Kept (propagate sessions keys env db m j q)
  unfolding propagate
  propagate-Keeps env db m j q w t =
      subst P (sym (finally_state P (answered sessions keys env db m j q) (mark_completed m j) w))
        (mark_completed-Keeps m j _ (answered-Keeps env db m j q w t))

  -- Whatever becomes of a request, that is whether it is answered, refused, or ends with an exception
  -- at any of its steps, its session has it among the completed calls afterwards, and its record of
  -- calls is in order if it was before.
  pub propagate_completes :
      (env : Env) (db : Lookup) (message_id : ℕ) (query : Query) (w : World C D)
      → TracksWorld ref w
      → Completed message_id (propagate sessions keys env db message_id ref query w).1
  unfolding propagate
  propagate_completes env db m q w t =
      let w' = (answered sessions keys env db m ref q w).1 in
      subst (Completed m)
        (sym (finally_state P (answered sessions keys env db m ref q) (mark_completed m ref) w))
        (mark_completed_lem m w' (answered-Keeps env db m ref q w t))
