-- ===== src/Session/Rpc/Bounds.antt =====
-- session.py: the record of completed calls is bounded and keeps the latest ones.
use piltover.Base.{
  Bool, Bool-cases, Dict, Distinct, List, [], ap, arith, discard, drop, false, if◌then◌else◌, inl,
  inr, length, length-drop, ltb, member, member-append, refl, remove, some, subst, suc, sym, zero,
  ℕ, ◌++◌, ◌-◌, ◌∙◌, ◌∷◌, ◌≡◌, ◌≤◌,
}
use native.Mathlib.Nat.{zero-sub}
use piltover.Session.{RpcTrack}
use piltover.Session.Rpc.{rpc_completion_track_limit, prune, set_event, mark_rpc_completed}

-- The set and the deque hold the same calls, each once, at most the limit of them.
pub record IsTracked (t : RpcTrack) : Type 0 where
  pub same : t.completed_ids ≡ t.completed_order
  pub distinct : Distinct t.completed_order
  pub bounded : length t.completed_order ≤ rpc_completion_track_limit

discard_absent : (a : ℕ) (xs : List ℕ) → member a xs ≡ false → discard a xs ≡ xs
discard_absent a [] h = refl
discard_absent a (x ∷ xs) h = ground (arith, discard_absent a xs)

pub discard_head : (a : ℕ) (xs : List ℕ) → Distinct (a ∷ xs) → discard a (a ∷ xs) ≡ xs
discard_head a xs d = ground (arith, discard_absent a xs)

pub Distinct-append :
    (a : ℕ) (xs : List ℕ) → Distinct xs → member a xs ≡ false → Distinct (xs ++ a ∷ [])
Distinct-append a [] d h = (refl, tt)
Distinct-append a (x ∷ xs) d h =
    ground (arith, Distinct-append a xs d.1, member-append x xs (a ∷ []))

-- What pruning leaves: the last calls, as many as the limit allows.
abbrev pub newest : ℕ → List ℕ → List ℕ
newest limit xs = drop (length xs - limit) xs

newest-nil : (limit : ℕ) → newest limit [] ≡ []
newest-nil limit = rw (zero-sub limit)

newest-all : (limit : ℕ) (xs : List ℕ) → length xs ≤ limit → newest limit xs ≡ xs
newest-all limit xs h = let e : length xs - limit ≡ 0 = omega arith in rw e

newest-cons :
    (limit x : ℕ) (xs : List ℕ) → limit ≤ length xs → newest limit (x ∷ xs) ≡ newest limit xs
newest-cons limit x xs h =
    let e : suc (length xs) - limit ≡ suc (length xs - limit) = omega arith in rw e

prune_keeps :
    (limit : ℕ) (completions : Dict Bool) (order : List ℕ)
    → Distinct order
    → (t : RpcTrack) × (prune limit completions order order ≡ some t)
      × (t.completed_ids ≡ newest limit order)
      × (t.completed_order ≡ newest limit order)
unfolding prune
prune_keeps limit completions [] d = (
  record { completions = completions; completed_ids = []; completed_order = [] },
  ground arith,
  sym (newest-nil limit),
  sym (newest-nil limit),
)
prune_keeps limit completions (x ∷ xs) d = elim (Bool-cases (ltb limit (suc (length xs)))) [
  | inl more ↦
      rw (more, discard_head x xs d, newest-cons limit x xs (ground arith))
        (prune_keeps limit (remove x completions) xs d.1)
  | inr enough ↦
      let all = newest-all limit (x ∷ xs) (ground arith) in
      (
        record { completions = completions; completed_ids = x ∷ xs; completed_order = x ∷ xs },
        rw enough,
        sym all,
        sym all,
      )
]

Distinct-drop : (n : ℕ) (xs : List ℕ) → Distinct xs → Distinct (drop n xs)
Distinct-drop zero xs d = d
Distinct-drop (suc n) [] d = d
Distinct-drop (suc n) (x ∷ xs) d = Distinct-drop n xs d.1

set_event-ids :
    (msg_id : ℕ) (t : RpcTrack)
    → ((set_event msg_id t).completed_ids ≡ t.completed_ids)
      × ((set_event msg_id t).completed_order ≡ t.completed_order)
unfolding set_event
set_event-ids msg_id t = ground arith

set_event-IsTracked : (msg_id : ℕ) (t : RpcTrack) → IsTracked t → IsTracked (set_event msg_id t)
set_event-IsTracked msg_id t h =
    let (ids, order) = set_event-ids msg_id t in
    record {
      same = ids ∙ h.same ∙ sym order;
      distinct = subst Distinct (sym order) h.distinct;
      bounded = omega (arith, ap length order, h.bounded);
    }

length-newest : (limit : ℕ) (xs : List ℕ) → length (newest limit xs) ≤ limit
length-newest limit xs = omega (arith, length-drop (length xs - limit) xs)

-- Marking a call complete never fails, keeps the record bounded, and leaves it with exactly the
-- latest calls up to the limit, oldest first; a call that is there already changes nothing in it.
pub mark-IsTracked :
    (t : RpcTrack) (msg_id : ℕ)
    → IsTracked t
    → (t' : RpcTrack) × (mark_rpc_completed t msg_id ≡ some t')
      × IsTracked t'
      × (t'.completed_order ≡ (
          if member msg_id t.completed_ids
          then t.completed_order
          else newest rpc_completion_track_limit (t.completed_order ++ msg_id ∷ [])))
unfolding mark_rpc_completed
mark-IsTracked t msg_id h = elim (Bool-cases (member msg_id t.completed_ids)) [
  | inl known ↦ (
    set_event msg_id t,
    rw known,
    set_event-IsTracked msg_id t h,
    rw known (set_event-ids msg_id t).1,
  )
  | inr fresh ↦
      let absent : member msg_id t.completed_order ≡ false =
        ap (member msg_id) (sym h.same) ∙ fresh in
      let grown = t.completed_order ++ msg_id ∷ [] in
      let distinct = Distinct-append msg_id t.completed_order h.distinct absent in
      let (t', e, ids, order) =
        prune_keeps rpc_completion_track_limit t.completions grown distinct in
      (
        set_event msg_id t',
        rw (fresh, h.same, e),
        set_event-IsTracked msg_id t' (record {
          same = ids ∙ sym order;
          distinct = subst Distinct (sym order) (Distinct-drop _ grown distinct);
          bounded = rw order (length-newest rpc_completion_track_limit grown);
        }),
        rw fresh ((set_event-ids msg_id t').1 ∙ order),
      )
]
