-- ===== src/Session/Rpc.antt =====
-- session.py: which calls are complete, for those that wait for one (`invokeAfterMsg`).
pub mod Bounds
pub mod Waiters
use piltover.Base.{
  Bool, Dict, List, Option, [], add, discard, false, has_key, if◌then◌else◌, length, ltb, member,
  none, put, remove, some, true, ℕ, ◌++◌, ◌∷◌,
}
use piltover.Session.{RpcTrack}

abbrev pub rpc_completion_track_limit : ℕ
rpc_completion_track_limit = 256

-- `_prune_rpc_completions`: `popleft` of an empty deque is `IndexError`, here `none`.
pub prune : ℕ → Dict Bool → List ℕ → List ℕ → Option RpcTrack
prune limit completions ids [] =
    if ltb limit (length ids)
    then none
    else some (record { completions = completions; completed_ids = ids; completed_order = [] })
prune limit completions ids (oldest ∷ order) =
    let rest = prune limit (remove oldest completions) (discard oldest ids) order in
    if ltb limit (length ids)
    then rest
    else some (record {
      completions = completions;
      completed_ids = ids;
      completed_order = oldest ∷ order;
    })

-- `event.set()`, if there is an event for the call
unfoldable pub set_event : ℕ → RpcTrack → RpcTrack
set_event msg_id t =
    if has_key msg_id t.completions
    then record t { completions = put msg_id true t.completions }
    else t

unfoldable pub mark_rpc_completed : RpcTrack → ℕ → Option RpcTrack
unfolding set_event
mark_rpc_completed t msg_id =
    if member msg_id t.completed_ids
    then some (set_event msg_id t)
    else elim (prune rpc_completion_track_limit t.completions (add msg_id t.completed_ids)
        (t.completed_order ++ msg_id ∷ [])) [ none ↦ none | some t' ↦ some (set_event msg_id t') ]

-- `wait_for_rpc` up to its wait: whether it returns at once, and else the event is there.
unfoldable pub wait_begin : RpcTrack → ℕ → Bool × RpcTrack
wait_begin t msg_id = if member msg_id t.completed_ids then (true, t) else (
  false,
  (if has_key msg_id t.completions
      then t
      else record t { completions = put msg_id false t.completions }),
)
