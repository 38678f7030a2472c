-- ===== src/Session/Rpc/Waiters.antt =====
-- session.py: a call that waits for another one is woken.
use piltover.Base.{
  Bool, Bool-cases, Dict, Distinct, List, Option-cases, [], ap, arith, drop, false, get, get-put,
  get-remove, has_key, if◌then◌else◌, inl, inr, length, length-append, ltb, member, member-append,
  none, remove, some, subst, suc, sym, true, zero, ℕ, ◌++◌, ◌-◌, ◌<◌, ◌∙◌, ◌∷◌, ◌≡◌, ◌≤◌,
}
use piltover.Session.{RpcTrack}
use piltover.Session.Rpc.{
  rpc_completion_track_limit, prune, set_event, mark_rpc_completed, wait_begin,
}
use piltover.Session.Rpc.Bounds.{IsTracked, discard_head, Distinct-append, newest, mark-IsTracked}

set_event_wakes :
    (m : ℕ) (t : RpcTrack)
    → has_key m t.completions ≡ true
    → get m (set_event m t).completions ≡ some true
unfolding set_event
set_event_wakes m t h = rw h (rw (get-put m m true t.completions) (ground arith))

-- Pruning keeps the event of the latest call.
prune-keeps_last :
    (limit m : ℕ) (xs : List ℕ) (completions : Dict Bool) (t : RpcTrack)
    → 0 < limit
    → Distinct (xs ++ m ∷ [])
    → prune limit completions (xs ++ m ∷ []) (xs ++ m ∷ []) ≡ some t
    → get m t.completions ≡ get m completions
unfolding prune
prune-keeps_last limit m [] completions t pos d h = ground arith
prune-keeps_last limit m (x ∷ xs) completions t pos d h =
    let all = xs ++ m ∷ [] in
    elim (Bool-cases (ltb limit (suc (length all)))) [
      | inl more ↦
          let h' : prune limit (remove x completions) all all ≡ some t =
            rw (more, discard_head x all d) at h in
          prune-keeps_last limit m xs (remove x completions) t pos d.1 h'
          ∙ ground (arith, get-remove x m completions, member-append x xs (m ∷ []))
      | inr enough ↦ ground arith
    ]

member-newest :
    (limit m : ℕ) (xs : List ℕ) → 0 < limit → member m (newest limit (xs ++ m ∷ [])) ≡ true
member-newest limit m xs pos =
    go (length (xs ++ m ∷ []) - limit) xs (omega (arith, length-append xs (m ∷ [])))
  where
    go : (n : ℕ) (ys : List ℕ) → n ≤ length ys → member m (drop n (ys ++ m ∷ [])) ≡ true
    go zero ys h = ground (arith, member-append m ys (m ∷ []))
    go (suc n) [] h = absurd (omega arith)
    go (suc n) (y ∷ ys) h = go n ys (omega arith)

mark_wakes :
    (t t' : RpcTrack) (m : ℕ)
    → IsTracked t
    → member m t.completed_ids ≡ false
    → has_key m t.completions ≡ true
    → mark_rpc_completed t m ≡ some t'
    → get m t'.completions ≡ some true
unfolding mark_rpc_completed
mark_wakes t t' m h fresh there e =
    let grown = t.completed_order ++ m ∷ [] in
    let absent : member m t.completed_order ≡ false = ap (member m) (sym h.same) ∙ fresh in
    let distinct = Distinct-append m t.completed_order h.distinct absent in
    elim (Option-cases (prune rpc_completion_track_limit t.completions grown grown)) [
      | inl stuck ↦ let e' : none ≡ some t' = rw (fresh, h.same, stuck) at e in cc
      | inr (u, done) ↦
          let e' : some (set_event m u) ≡ some t' = rw (fresh, h.same, done) at e in
          let kept =
            prune-keeps_last rpc_completion_track_limit m t.completed_order t.completions u
              (omega arith) distinct done in
          let there' : has_key m u.completions ≡ true = rw (kept, has_key) there in
          let eq : set_event m u ≡ t' = cc in rw (← eq) (set_event_wakes m u there')
    ]

wait_begin_registers :
    (t : RpcTrack) (m : ℕ)
    → member m t.completed_ids ≡ false
    → let t' = (wait_begin t m).1 in
      (has_key m t'.completions ≡ true)
      × (t'.completed_ids ≡ t.completed_ids)
      × (t'.completed_order ≡ t.completed_order)
unfolding wait_begin
wait_begin_registers t m h = ground (arith, get-put m m false t.completions)

wait_begin-fst : (t : RpcTrack) (m : ℕ) → (wait_begin t m).0 ≡ member m t.completed_ids
unfolding wait_begin
wait_begin-fst t m = ground arith

pub member-marked :
    (t t' : RpcTrack) (m : ℕ)
    → IsTracked t
    → IsTracked t'
    → t'.completed_order ≡ (
        if member m t.completed_ids
        then t.completed_order
        else newest rpc_completion_track_limit (t.completed_order ++ m ∷ []))
    → member m t'.completed_ids ≡ true
member-marked t t' m h h' e = elim (Bool-cases (member m t.completed_ids)) [
  | inl known ↦ rw (h'.same, e, known) (rw h.same at known)
  | inr fresh ↦
      rw (h'.same, e, fresh)
        (member-newest rpc_completion_track_limit m t.completed_order (omega arith))
]

-- A call that begins to wait for one that is not complete has its event set by the marking that
-- follows.
pub mark_wakes_waiting :
    (t : RpcTrack) (m : ℕ)
    → IsTracked t
    → (wait_begin t m).0 ≡ false
    → (t' : RpcTrack) × (mark_rpc_completed (wait_begin t m).1 m ≡ some t')
      × (get m t'.completions ≡ some true)
mark_wakes_waiting t m h waits =
    let fresh = sym (wait_begin-fst t m) ∙ waits in
    let (there, ids, order) = wait_begin_registers t m fresh in
    let t₁ = (wait_begin t m).1 in
    let h₁ : IsTracked t₁ = record {
      same = ids ∙ h.same ∙ sym order;
      distinct = subst Distinct (sym order) h.distinct;
      bounded = omega (arith, ap length order, h.bounded);
    } in
    let (t', e, _, _) = mark-IsTracked t₁ m h₁ in
    (t', e, mark_wakes t₁ t' m h₁ (ap (member m) ids ∙ fresh) there e)

-- A call that begins to wait for one that has just been marked complete returns at once.
wait_after_mark :
    (t : RpcTrack) (m : ℕ)
    → IsTracked t
    → (t' : RpcTrack) × (mark_rpc_completed t m ≡ some t') × ((wait_begin t' m).0 ≡ true)
wait_after_mark t m h =
    let (t', e, h', order) = mark-IsTracked t m h in
    (t', e, wait_begin-fst t' m ∙ member-marked t t' m h h' order)
