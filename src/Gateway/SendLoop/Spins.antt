-- ===== src/Gateway/SendLoop/Spins.antt =====
-- client.py: the loop that writes does not end while a session without a client has messages.
use piltover.Base.{
  ==→eq, Bool-cases, Dict, List, Option-cases, [], ap, arith, false, get, get-put, inl, inr, member,
  none, put, refl, some, subst, suc, sym, true, zero, ℕ, ◌==◌, ◌∙◌, ◌∷◌, ◌≡◌,
}
use piltover.Session.{Session}
use piltover.Session.Flush.{
  Server, Wire, Written, write_unencrypted, and_then, write_queue, resend_pending,
  write_session_queues,
}
use piltover.Gateway.{LruOps, Client}
use piltover.Gateway.Action.{Action, Done, Result, done, raised, ◌>>=◌}
use piltover.Gateway.SendLoop.{
  Sending, has_messages, any_waiting, flush_session, flush_all, outbound_sessions,
  has_pending_outbound, flush_round, drain,
}

abbrev pub StuckHeap : ℕ → Dict Session → Type 0
StuckHeap ref heap =
    (s : Session) × (get ref heap ≡ some s) × (s.client ≡ none) × (has_messages s ≡ true)

-- A session with nothing to send, now or again.
pub record IsQuiet (s : Session) : Type 0 where
  pub plain : s.unencrypted_queue ≡ []
  pub messages : s.message_queue ≡ []
  pub again : s.resend_pending_on_connect ≡ false

-- All sessions but one are quiet.
abbrev pub QuietHeap : List ℕ → ℕ → Dict Session → Type 0
QuietHeap refs ref heap =
    (j : ℕ)
    → member j refs ≡ true
    → (j == ref) ≡ false
    → (s : Session) × (get j heap ≡ some s) × IsQuiet s

-- A session that has messages and no client, among others that are quiet; the caches of the connection
-- are given.
abbrev pub Stuck : {C D : Type 0} → List ℕ → Client C D → ℕ → Sending C D → Type 0
Stuck refs c ref (w, wire) =
    (w.client ≡ c) × StuckHeap ref w.manager.heap × QuietHeap refs ref w.manager.heap

put-Stuck :
    (ref j : ℕ) (s : Session) (heap : Dict Session)
    → (j == ref) ≡ false
    → StuckHeap ref heap
    → StuckHeap ref (put j s heap)
put-Stuck ref j s heap differ (s₁, e, gone, more) =
    (s₁, ground (arith, get-put j ref s heap), gone, more)

put-Quiet :
    (refs : List ℕ) (ref j : ℕ) (s : Session) (heap : Dict Session)
    → IsQuiet s
    → QuietHeap refs ref heap
    → QuietHeap refs ref (put j s heap)
put-Quiet refs ref j s heap quiet h i there differ = elim (Bool-cases (j == i)) [
  | inl at ↦ (s, ground (arith, get-put j i s heap), quiet)
  | inr off ↦ let (s', e, q) = h i there differ in (s', ground (arith, e, get-put j i s heap), q)
]

pub put_own-Quiet :
    (refs : List ℕ) (ref : ℕ) (s : Session) (heap : Dict Session)
    → QuietHeap refs ref heap
    → QuietHeap refs ref (put ref s heap)
put_own-Quiet refs ref s heap h i there differ =
    let (s', e, q) = h i there differ in (s', ground (arith, e, get-put ref i s heap), q)

resend_quiet :
    (server : Server) (s : Session) (w : Wire)
    → s.resend_pending_on_connect ≡ false
    → resend_pending server s w ≡ record { session = s; wire = w; raised = none }
unfolding resend_pending
resend_quiet server s w h = ground (arith, h)

-- A quiet session writes nothing and stays quiet.
write-IsQuiet :
    (server : Server) (s : Session) (w : Wire)
    → IsQuiet s
    → (s' : Session) × IsQuiet s'
      × (write_session_queues server s w ≡ record { session = s'; wire = w; raised = none })
unfolding write_session_queues write_unencrypted write_queue
write-IsQuiet server s w q =
    let s₁ = record s { unencrypted_queue = [] } in
    let next : Session → Wire → Written = λ s' w'. write_queue server s'.message_queue s' w' in
    (
      record s₁ { message_queue = [] },
      record { plain = refl; messages = refl; again = q.again },
      ap (λ plain. and_then (and_then (write_unencrypted plain s w) (resend_pending server)) next)
            q.plain
          ∙ ap (λ r. and_then r next) (resend_quiet server s₁ w q.again)
          ∙ ap (λ queue. write_queue server queue s₁ w) q.messages,
    )

-- It returns, and what holds before it holds after it.
abbrev Returns : {C D : Type 0} → (Sending C D → Type 0) → Action (Sending C D) Done → Type 0
Returns {C = C} {D = D} P m = (p : Sending C D) → P p → ((m p).0 ≡ done tt) × P (m p).1

then_cases :
    {C D : Type 0} (P : Sending C D → Type 0) (r : Result Done × Sending C D)
    (n : Action (Sending C D) Done)
    → r.0 ≡ done tt
    → P r.1
    → Returns P n
    → ((((λ _. r) >>= λ _. n) r.1).0 ≡ done tt) × P (((λ _. r) >>= λ _. n) r.1).1
then_cases P (done tt, p) n e h k = k p h
then_cases P (raised x, p) n e h k = cc

module _ {C D : Type 0} (server : Server) (refs : List ℕ) (c : Client C D) (ref : ℕ) where
  flush_session-Returns :
      (j : ℕ) → member j refs ≡ true → Returns (Stuck refs c ref) (flush_session server j)
  unfolding flush_session
  flush_session-Returns j there (w, wire) (same, (s₁, e₁, gone, more), quiet) =
      elim (Bool-cases (j == ref)) [
        | inl at ↦
            let e : get j w.manager.heap ≡ some s₁ =
              subst (λ i. get i w.manager.heap ≡ some s₁) (sym (==→eq j ref at)) e₁ in
            rw (e, flush_session, gone) (refl, (same, (s₁, e₁, gone, more), quiet))
        | inr differ ↦
            let (s, e, q) = quiet j there differ in
            elim (Option-cases s.client) [
              | inl k ↦ rw (e, flush_session, k) (refl, (same, (s₁, e₁, gone, more), quiet))
              | inr (id, k) ↦
                  let (s', q', wrote) = write-IsQuiet server s wire q in
                  rw (e, flush_session, k, wrote)
                    (
                      refl,
                      (
                        same,
                        put-Stuck ref j s' w.manager.heap differ (s₁, e₁, gone, more),
                        put-Quiet refs ref j s' w.manager.heap q' quiet,
                      ),
                    )
            ]
      ]

  flush_all-Returns :
      (js : List ℕ)
      → ((j : ℕ) → member j js ≡ true → member j refs ≡ true)
      → Returns (Stuck refs c ref) (flush_all server js)
  unfolding flush_all
  flush_all-Returns [] within p t = (refl, t)
  flush_all-Returns (j ∷ js) within p t =
      let (e, h) = flush_session-Returns j (within j (ground arith)) p t in
      then_cases (Stuck refs c ref) (flush_session server j p) (flush_all server js) e h
        (flush_all-Returns js (λ i there. within i (ground (arith, there))))

any_waiting-member :
    (heap : Dict Session) (ref : ℕ) (s : Session) (refs : List ℕ)
    → get ref heap ≡ some s
    → has_messages s ≡ true
    → member ref refs ≡ true
    → any_waiting heap refs ≡ true
unfolding any_waiting
any_waiting-member heap ref s [] e more there = cc
any_waiting-member heap ref s (j ∷ refs) e more there = elim (Bool-cases (j == ref)) [
  | inl same ↦ let at = ==→eq j ref same in rw (at, e, more) refl
  | inr differ ↦
      let rest = any_waiting-member heap ref s refs e more (ground arith) in ground (arith, rest)
]

pending-Stuck :
    {C D : Type 0} (sessions : LruOps (ℕ × ℕ) ℕ C) (server : Server) (refs : List ℕ)
    (c : Client C D) (ref : ℕ) (p : Sending C D)
    → member ref (sessions.values c.active_sessions) ≡ true
    → Stuck refs c ref p
    → has_pending_outbound sessions server p.0 ≡ true
unfolding has_pending_outbound outbound_sessions
pending-Stuck sessions server refs c ref (w, wire) there (same, (s, e, _, more), _) =
    let active : member ref (sessions.values w.client.active_sessions) ≡ true =
      ap (λ (d : Client _ _). member ref (sessions.values d.active_sessions)) same ∙ there in
    any_waiting-member w.manager.heap ref s (outbound_sessions sessions server w) e more
      (ground (arith, active))

-- The sessions whose queues the loop of a connection looks at.
abbrev pub refs_of : {C D : Type 0} → LruOps (ℕ × ℕ) ℕ C → Client C D → List ℕ
refs_of sessions c = c.keygen_session ∷ sessions.values c.active_sessions

module _ {C D : Type 0} (sessions : LruOps (ℕ × ℕ) ℕ C) (server : Server) (c : Client C D) (ref : ℕ)
    (there : member ref (sessions.values c.active_sessions) ≡ true) where
  flush_round-Returns : Returns (Stuck (refs_of sessions c) c ref) (flush_round sessions server)
  unfolding flush_round outbound_sessions
  flush_round-Returns (w, wire) t =
      flush_all-Returns server (refs_of sessions c) c ref (outbound_sessions sessions server w)
        (λ j here. ap (λ (d : Client C D). member j (refs_of sessions d)) (sym t.0) ∙ here)
        (w, wire) t

  after_round :
      (passes : ℕ)
      → ((p : Sending C D)
          → Stuck (refs_of sessions c) c ref p
          → (drain sessions server passes p).0 ≡ done false)
      → (r : Result Done × Sending C D) → r.0 ≡ done tt
      → Stuck (refs_of sessions c) c ref r.1
      → (((λ _. r) >>= λ _. drain sessions server passes) r.1).0 ≡ done false
  after_round passes never (done _, p) e t = never p t
  after_round passes never (raised x, p) e t = cc

  -- While a session of the connection has messages and no client, and the others have none to send, the
  -- loop makes pass after pass: it neither comes to an end of them nor raises anything.
  pub drain_spins :
      (passes : ℕ) (p : Sending C D)
      → Stuck (refs_of sessions c) c ref p
      → (drain sessions server passes p).0 ≡ done false
  unfolding drain
  drain_spins zero (w, wire) t =
      let pending = pending-Stuck sessions server (refs_of sessions c) c ref (w, wire) there t in
      rw (pending, drain) refl
  drain_spins (suc passes) (w, wire) t =
      let pending = pending-Stuck sessions server (refs_of sessions c) c ref (w, wire) there t in
      let (e, h) = flush_round-Returns (w, wire) t in
      rw (pending, drain)
        (after_round passes (drain_spins passes) (flush_round sessions server (w, wire)) e h)
