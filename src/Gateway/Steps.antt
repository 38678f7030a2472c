-- ===== src/Gateway/Steps.antt =====
-- The handlers of the gateway and the calls of the worker keep the record of completed calls of each
-- session in order.
use piltover.Base.{
  Bool, Bool-cases, List, Option, Option-cases, [], false, has_key, if_intro, inl, inr, member, min,
  none, refl, some, true, ℕ, ◌==◌, ◌∷◌, ◌≡◌,
}
use piltover.Session.{Session, RpcTrack}
use piltover.Session.Rpc.{wait_begin}
use piltover.Session.Rpc.Bounds.{IsTracked}
use piltover.Broker.{perm_key_id}
use piltover.Manager.{lookup}
use piltover.Manager.Auth.{refresh_auth_maybe}
use piltover.Manager.Auth.Calls.{refresh_auth_maybe-rpc}
use piltover.Gateway.{World}
use piltover.Gateway.Action.{Action, Done, Result, pure, modify, ◌>>◌}
use piltover.Gateway.Action.Keeps.{Keeps, bind-Keeps, then-Keeps, test-Keeps}
use piltover.Gateway.Requests.{
  Env, Call, Task, TaskResult, Wait, Response, not_queued, queued, result, timed_out, failed, ack,
  is_err, unreadable, not_response, response,
}
use piltover.Gateway.Handlers.{
  wait_for_rpc, wait_for_invoke_after, destroy_stored, finalize_found, set_layer,
}
use piltover.Gateway.Worker.{
  Lookup, refresh, fetch_layer, as_answer, lower_layer, stored_layer, accept_response,
  accept_result, wait_result_with_ack, await_task, run_worker, call_rpc,
}
use piltover.Gateway.Tracks.{
  Tracks, TracksWorld, on_session-Tracks, with_session-Keeps, put-Tracks, kept, finalize-Tracks,
  same-Tracks, enqueue-Tracks,
}

wait_begin-IsTracked : (t : RpcTrack) (m : ℕ) → IsTracked t → IsTracked (wait_begin t m).1
unfolding wait_begin
wait_begin-IsTracked t m h =
    if_intro (λ (r : Bool × RpcTrack). IsTracked r.1) (member m t.completed_ids) h
      (if_intro IsTracked (has_key m t.completions) h
        (record { same = h.same; distinct = h.distinct; bounded = h.bounded }))

lower_layer-rpc : (n : ℕ) (o : Option ℕ) (s : Session) → (lower_layer n o s).rpc ≡ s.rpc
lower_layer-rpc n none s = refl
lower_layer-rpc n (some l) s = refl

module _ {C D : Type 0} (ref : ℕ) where
  abbrev pub Keep : {A : Type 0} → Action (World C D) A → Type 0
  Keep = Keeps (TracksWorld ref)

  wait_for_rpc-Keeps : (env : Env) (j m : ℕ) → Keep (wait_for_rpc env j m)
  unfolding wait_for_rpc
  wait_for_rpc-Keeps env j m = with_session-Keeps ref j _ (λ s w e t.
      on_session-Tracks ref j (λ s'. record s' { rpc = (wait_begin s.rpc m).1 }) w
        (λ s₁ e₁ t₁. let eq : s ≡ s₁ = cc in wait_begin-IsTracked s.rpc m (rw eq t₁)) t)

  pub wait_for_invoke_after-Keeps :
      (env : Env) (j : ℕ) (ms : List ℕ) → Keep (wait_for_invoke_after env j ms)
  unfolding wait_for_invoke_after
  wait_for_invoke_after-Keeps env j [] = λ w t. t
  wait_for_invoke_after-Keeps env j (m ∷ ms) =
      bind-Keeps (TracksWorld ref) (wait_for_rpc env j m)
        (λ e. elim e [ true ↦ wait_for_invoke_after env j ms | false ↦ pure false ])
        (wait_for_rpc-Keeps env j m)
        (test-Keeps (TracksWorld ref) (wait_for_invoke_after env j ms) (pure false)
          (wait_for_invoke_after-Keeps env j ms) (λ w t. t))

  pub set_layer-Keeps : (env : Env) (j layer : ℕ) → Keep (set_layer env j layer)
  unfolding set_layer
  set_layer-Keeps env j layer = with_session-Keeps ref j _ (λ s w e t.
      let n : ℕ = min layer env.max_layer in
      let t' = same-Tracks ref j (λ s'. record s' { layer = n }) w (λ _. refl) t in
      if_intro (λ (r : Result Done × World C D). TracksWorld ref r.1) (n == s.layer) t'
        (elim (Option-cases s.auth_data) [ inl k ↦ rw k t | inr (a, k) ↦ rw k t' ]))

  pub destroy_stored-Keeps :
      (key : Option ℕ) (id : ℕ) (w : World C D)
      → TracksWorld ref w
      → TracksWorld ref (destroy_stored key id w)
  unfolding destroy_stored
  destroy_stored-Keeps none id w t = t
  destroy_stored-Keeps (some k) id w t = go (lookup (some k) id w.manager.sessions)
    where
      go : (o : Option ℕ) → Tracks ref (finalize_found o w.manager).heap
      go none = t
      go (some j) = finalize-Tracks ref j w.manager t

  pub refresh-Keeps :
      (env : Env) (db : Lookup) (force : Bool) (j : ℕ) → Keep (refresh env db force j)
  unfolding refresh
  refresh-Keeps env db force j = with_session-Keeps ref j _ (λ s w e t.
      elim (Option-cases (refresh_auth_maybe j force (db s) env.time s w.manager.broker)) [
        | inl gone ↦
            rw gone (same-Tracks ref j (λ s'. record s' { auth_data = none }) w (λ _. refl) t)
        | inr ((s', b), found) ↦ rw found (
            put-Tracks ref j s' w.manager.heap
              (kept j s s' w.manager.heap
                (refresh_auth_maybe-rpc j force (db s) env.time s s' w.manager.broker b found) e)
              t)
      ])

  pub fetch_layer-Tracks :
      (env : Env) (j : ℕ) (w : World C D)
      → TracksWorld ref w
      → TracksWorld ref (fetch_layer env j w)
  unfolding fetch_layer
  fetch_layer-Tracks env j w t =
      same-Tracks ref j
        (λ s. lower_layer env.max_layer (stored_layer w (perm_key_id s.auth_data)) s) w
        (λ s. lower_layer-rpc env.max_layer (stored_layer w (perm_key_id s.auth_data)) s) t

  accept_response-Keeps :
      (env : Env) (db : Lookup) (j : ℕ) (r : Response) → Keep (accept_response env db j r)
  unfolding accept_response
  accept_response-Keeps env db j r = elim (Option-cases r.transport_error) [
    | inr (n, e) ↦ λ w t. rw e t
    | inl e ↦ λ w t. elim (Bool-cases r.refresh_auth) [
      | inr f ↦ rw (e, f) t
      | inl f ↦
          rw (e, f)
            (then-Keeps (TracksWorld ref) (refresh env db true j)
              (modify (fetch_layer env j) >> pure (as_answer r.result))
              (refresh-Keeps env db true j) (λ w' t'. fetch_layer-Tracks env j w' t') w t)
    ]
  ]

  accept_result-Keeps :
      (env : Env) (db : Lookup) (m j : ℕ) (r : Option TaskResult)
      → Keep (accept_result env db m j r)
  unfolding accept_result
  accept_result-Keeps env db m j none = λ w t. t
  accept_result-Keeps env db m j (some is_err) = λ w t. t
  accept_result-Keeps env db m j (some unreadable) = λ w t. t
  accept_result-Keeps env db m j (some not_response) = λ w t. t
  accept_result-Keeps env db m j (some (response r)) = accept_response-Keeps env db j r

  wait_result-Keeps :
      (env : Env) (m j : ℕ) (first second : Wait) → Keep (wait_result_with_ack env m j first second)
  unfolding wait_result_with_ack
  wait_result-Keeps env m j (result r) second = λ w t. t
  wait_result-Keeps env m j failed second = λ w t. t
  wait_result-Keeps env m j timed_out second =
      λ w t. enqueue-Tracks ref env j (ack (m ∷ [])) false w t

  await_task-Keeps :
      (env : Env) (db : Lookup) (m j : ℕ) (task : Task) → Keep (await_task env db m j task)
  unfolding await_task
  await_task-Keeps env db m j not_queued = λ w t. t
  await_task-Keeps env db m j (queued first second) =
      bind-Keeps (TracksWorld ref) (wait_result_with_ack env m j first second)
        (λ r. accept_result env db m j r) (wait_result-Keeps env m j first second)
        (accept_result-Keeps env db m j)

  pub run_worker-Keeps :
      (env : Env) (db : Lookup) (m j : ℕ) (call : Call) → Keep (run_worker env db m j call)
  unfolding run_worker
  run_worker-Keeps env db m j call =
      with_session-Keeps ref j _
        (λ s w e t. await_task-Keeps env db m j (env.kiq (call_rpc s call m)) w t)
