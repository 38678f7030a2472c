-- ===== src/Gateway/Tracks.antt =====
-- The operations of the gateway keep the record of completed calls of each session in order.
use piltover.Base.{
  ==→eq, Bool, Bool-cases, Dict, Option, Option-cases, arith, get, get-put, if_intro, inl, inr,
  none, put, refl, some, subst, sym, ℕ, ◌==◌, ◌≡◌,
}
use piltover.Session.{AuthData, new_session, Session}
use piltover.Session.Lifecycle
use piltover.Session.Outbound
use piltover.Session.Rpc.Bounds.{IsTracked}
use piltover.Broker.{key_id}
use piltover.Manager
use piltover.Manager.{lookup, Manager, schedule_leave}
use piltover.Manager.Ends.{schedule_leave-rest}
use piltover.Tl.Codec.{Bytes}
use piltover.Gateway.Sessions.{
  session_evicted, open_session, activate, get_session, get_cached_session,
}
use piltover.Gateway.{LruOps, World}
use piltover.Gateway.Action.{Action}
use piltover.Gateway.Action.Keeps.{Keeps}
use piltover.Gateway.Requests.{Answer, Env}
use piltover.Gateway.Gate.{on_session, enqueue}
use piltover.Gateway.Handlers.{with_session}

-- The heap holds the session, and its record of completed calls is in order.
abbrev pub Tracks : ℕ → Dict Session → Type 0
Tracks ref heap = (s : Session) × (get ref heap ≡ some s) × IsTracked s.rpc

pub put-Tracks :
    (ref j : ℕ) (s' : Session) (heap : Dict Session)
    → ((s : Session) → get j heap ≡ some s → IsTracked s.rpc → IsTracked s'.rpc)
    → Tracks ref heap
    → Tracks ref (put j s' heap)
put-Tracks ref j s' heap keep (s, e, t) = elim (Bool-cases (j == ref)) [
  | inl same ↦
      let eq = ==→eq j ref same in (s', ground (arith, get-put j ref s' heap), keep s (rw eq e) t)
  | inr differ ↦ (s, ground (arith, get-put j ref s' heap), t)
]

pub kept :
    (j : ℕ) (s s' : Session) (heap : Dict Session)
    → s'.rpc ≡ s.rpc
    → get j heap ≡ some s
    → (s₁ : Session) → get j heap ≡ some s₁
    → IsTracked s₁.rpc
    → IsTracked s'.rpc
kept j s s' heap same e s₁ e₁ t = let eq : s₁ ≡ s = cc in rw (same, ← eq) t

abbrev pub TracksWorld : {C D : Type 0} → ℕ → World C D → Type 0
TracksWorld ref w = Tracks ref w.manager.heap

pub on_session-Tracks :
    {C D : Type 0} (ref j : ℕ) (f : Session → Session) (w : World C D)
    → ((s : Session) → get j w.manager.heap ≡ some s → IsTracked s.rpc → IsTracked (f s).rpc)
    → TracksWorld ref w
    → TracksWorld ref (on_session j f w)
on_session-Tracks ref j f w keep t = elim (Option-cases (get j w.manager.heap)) [
  | inl e ↦ rw (e, on_session) t
  | inr (s, e) ↦
      rw (e, on_session)
        (put-Tracks ref j (f s) w.manager.heap
          (λ s₁ e₁ t₁. let eq : s₁ ≡ s = cc in keep s e (rw (← eq) t₁)) t)
]

pub with_session-Keeps :
    {C D A : Type 0} (ref j : ℕ) (f : Session → Action (World C D) A)
    → ((s : Session) (w : World C D)
        → get j w.manager.heap ≡ some s
        → TracksWorld ref w
        → TracksWorld ref (f s w).1)
    → Keeps (TracksWorld ref) (with_session j f)
with_session-Keeps ref j f keep w t = elim (Option-cases (get j w.manager.heap)) [
  | inl e ↦ rw (e, with_session) t
  | inr (s, e) ↦ rw (e, with_session) (keep s w e t)
]

schedule_leave-Tracks :
    (ref : ℕ) (user_id exclude : Option ℕ) (m : Manager)
    → Tracks ref m.heap
    → Tracks ref (schedule_leave user_id exclude m).heap
schedule_leave-Tracks ref user_id exclude m t =
    subst (Tracks ref) (sym (schedule_leave-rest user_id exclude m).1) t

pub disconnect-Tracks :
    (ref j : ℕ) (m : Manager) → Tracks ref m.heap → Tracks ref (Manager.disconnect m j).heap
unfolding Manager.disconnect
disconnect-Tracks ref j m t = elim (Option-cases (get j m.heap)) [
  | inl e ↦ rw (e, Manager.disconnect) t
  | inr (s, e) ↦
      let m' : Manager = record m { heap = put j (Lifecycle.disconnect s) m.heap } in
      let t' : Tracks ref m'.heap =
        put-Tracks ref j (Lifecycle.disconnect s) m.heap
          (kept j s (Lifecycle.disconnect s) m.heap (Lifecycle.disconnect-rpc s) e) t in
      rw (e, Manager.disconnect)
        (if_intro (λ (x : Manager). Tracks ref x.heap) (Manager.same_key s.client none) t'
          (schedule_leave-Tracks ref s.user_id (some j) m' t'))
]

finalize-rpc : (s : Session) → IsTracked (Lifecycle.finalize s).rpc
unfolding Lifecycle.finalize
finalize-rpc s = record { same = refl; distinct = tt; bounded = omega arith }

ended-Tracks :
    (ref j id : ℕ) (s : Session) (m : Manager)
    → Tracks ref m.heap
    → Tracks ref (Manager.ended m j id s).heap
unfolding Manager.ended
ended-Tracks ref j id s m t =
    put-Tracks ref j (Lifecycle.finalize s) m.heap (λ _ _ _. finalize-rpc s) t

pub finalize-Tracks :
    (ref j : ℕ) (m : Manager) → Tracks ref m.heap → Tracks ref (Manager.finalize m j).heap
unfolding Manager.finalize
finalize-Tracks ref j m t = elim (Option-cases (get j m.heap)) [
  | inl e ↦ rw (e, Manager.finalize) t
  | inr (s, e) ↦ elim (Option-cases (key_id s.auth_data)) [
    | inl k ↦
        rw (e, Manager.finalize, k)
          (put-Tracks ref j (Lifecycle.finalize s) m.heap (λ _ _ _. finalize-rpc s) t)
    | inr (id, k) ↦
        rw (e, Manager.finalize, k)
          (schedule_leave-Tracks ref s.user_id none (Manager.ended m j id s)
            (ended-Tracks ref j id s m t))
  ]
]

module _ {C D : Type 0} (ref : ℕ) where
  pub same-Tracks :
      (j : ℕ) (f : Session → Session) (w : World C D)
      → ((s : Session) → (f s).rpc ≡ s.rpc)
      → TracksWorld ref w
      → TracksWorld ref (on_session j f w)
  same-Tracks j f w same t = on_session-Tracks ref j f w (λ s _ t₁. rw (same s) t₁) t

  pub enqueue-Tracks :
      (env : Env) (j : ℕ) (answer : Answer) (in_reply : Bool) (w : World C D)
      → TracksWorld ref w
      → TracksWorld ref (enqueue env j answer in_reply w)
  unfolding enqueue
  enqueue-Tracks env j answer in_reply w t =
      same-Tracks j (λ s. Outbound.enqueue s env.time env.stored (env.encode answer) in_reply) w
        (λ s. Outbound.enqueue-rpc s env.time env.stored (env.encode answer) in_reply) t

-- A session that is asked for, found or made.
new-IsTracked :
    (id : ℕ) (client : Option ℕ) (auth : Option AuthData)
    → IsTracked (new_session id client auth).rpc
new-IsTracked id client auth = record { same = refl; distinct = tt; bounded = omega arith }

get_or_create-Tracks :
    (ref : ℕ) (m : Manager) (id client : ℕ) (auth : AuthData)
    → Tracks ref m.heap
    → Tracks ref (Manager.get_or_create m id client auth).1.heap
unfolding Manager.get_or_create Manager.created
get_or_create-Tracks ref m id client auth t =
    elim (Option-cases (lookup auth.auth_key_id id m.sessions)) [
      | inr (j, e) ↦ rw (e, Manager.get_or_create) t
      | inl e ↦
          rw (e, Manager.get_or_create)
            (put-Tracks ref m.next_ref (new_session id (some client) (some auth)) m.heap
              (λ _ _ _. new-IsTracked id (some client) (some auth)) t)
    ]

connect-Tracks :
    (ref j client : ℕ) (m : Manager)
    → Tracks ref m.heap
    → Tracks ref (Manager.connect m j client).heap
unfolding Manager.connect
connect-Tracks ref j client m t = elim (Option-cases (get j m.heap)) [
  | inl e ↦ rw (e, Manager.connect) t
  | inr (s, e) ↦
      rw (e, Manager.connect)
        (put-Tracks ref j (Lifecycle.connect s client) m.heap
          (kept j s (Lifecycle.connect s client) m.heap (Lifecycle.connect-rpc s client) e) t)
]

evicted-Tracks :
    (ref : ℕ) (o : Option ℕ) (m : Manager)
    → Tracks ref m.heap
    → Tracks ref (session_evicted o m).heap
unfolding session_evicted
evicted-Tracks ref none m t = t
evicted-Tracks ref (some j) m t = disconnect-Tracks ref j m t

module _ {C D : Type 0} (sessions : LruOps (ℕ × ℕ) ℕ C) (keys : LruOps ℕ Bytes D) (ref : ℕ) where
  open_session-Tracks :
      (w : World C D) (id : ℕ) (auth : AuthData)
      → TracksWorld ref w
      → TracksWorld ref (open_session sessions keys w id auth).1
  unfolding open_session activate
  open_session-Tracks w id auth t =
      let ((j, new), m) = Manager.get_or_create w.manager id w.client.id auth in
      let m' = Manager.connect m j w.client.id in
      let t' : Tracks ref m'.heap =
        connect-Tracks ref j w.client.id m
          (get_or_create-Tracks ref w.manager id w.client.id auth t) in
      elim (Option-cases (get j m'.heap)) [
        | inl e ↦ rw (e, open_session) t'
        | inr (s, e) ↦ rw (e, open_session) (evicted-Tracks ref _ m' t')
      ]

  pub get_session-Tracks :
      (w : World C D) (key id : ℕ) (auth : AuthData)
      → TracksWorld ref w
      → TracksWorld ref (get_session sessions keys w key id auth).1
  unfolding get_session get_cached_session
  get_session-Tracks w key id auth t =
      elim (Option-cases (sessions.find (key, id) w.client.active_sessions)) [
        | inl e ↦
            rw (e, get_session)
              (open_session-Tracks
                (record w { client = (get_cached_session sessions keys w.client key id).1 }) id auth
                t)
        | inr (j, e) ↦ rw (e, get_session) t
      ]
