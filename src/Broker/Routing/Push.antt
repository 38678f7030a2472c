-- ===== src/Broker/Routing/Push.antt =====
-- base_broker.py: internal pushes, which tell a session that there is more than it was sent.
use piltover.Base.{
  Bool, Bool-cases, List, Option-cases, [], arith, false, get, if◌then◌else◌, inl, inr, member,
  none, refl, some, true, ℕ, ◌==◌, ◌∙◌, ◌∷◌, ◌≡◌,
}
use piltover.Session.{Session}
use piltover.Session.Outbound.{Outgoing, enqueue}
use piltover.Session.Flush.{Server}
use piltover.Broker.{Broker}
use piltover.Broker.Routing.Targets.{gather, hears_any, member-gather}
use piltover.Broker.Routing.Deliver.{Heap, flush_in}
use piltover.Broker.Routing.Exact.{flush_in_other}

abbrev has_client : Session → Bool
has_client s = elim s.client [ none ↦ false | some _ ↦ true ]

-- The object is `UpdatesTooLong()`, whose serialisation is generated.
module _ (server : Server) (time stored : ℕ) (too_long : Outgoing) where
  unfoldable pub push : ℕ → Heap → Heap
  push ref h = elim (get ref h.sessions) [
    | none ↦ h
    | some s ↦
        if has_client s then flush_in server h ref (enqueue s time stored too_long false) else h
  ]

  unfoldable push_all : List ℕ → Heap → Heap
  unfolding push
  push_all [] h = h
  push_all (ref ∷ refs) h = push_all refs (push ref h)

  -- `_process_internal_push_to_users`, by the list of users of either form of the message
  unfoldable pub process_internal_push_to_users : Broker → List ℕ → Heap → Heap
  unfolding gather push_all
  process_internal_push_to_users b users h = push_all (gather b.internal_push_users users []) h

  push_other :
      (ref other : ℕ) (h : Heap)
      → (ref == other) ≡ false
      → get other (push ref h).sessions ≡ get other h.sessions
  unfolding push
  push_other ref other h apart = elim (Option-cases (get ref h.sessions)) [
    | inl e ↦ rw (e, push) refl
    | inr (s, e) ↦ elim (Bool-cases (has_client s)) [
      | inl yes' ↦
          rw (e, push, yes')
            (flush_in_other server ref other h (enqueue s time stored too_long false) apart).0
      | inr no' ↦ rw (e, push, no') refl
    ]
  ]

  push_all_other :
      (refs : List ℕ) (other : ℕ) (h : Heap)
      → member other refs ≡ false
      → get other (push_all refs h).sessions ≡ get other h.sessions
  unfolding push_all
  push_all_other [] other h apart = refl
  push_all_other (ref ∷ refs) other h apart =
      push_all_other refs other (push ref h) (ground arith) ∙ push_other ref other h (ground arith)

  -- An internal push to users leaves every session as it was that is not subscribed to internal pushes
  -- of one of them.
  internal_push_spares :
      (b : Broker) (users : List ℕ) (h : Heap) (ref : ℕ)
      → hears_any b.internal_push_users users ref ≡ false
      → get ref (process_internal_push_to_users b users h).sessions ≡ get ref h.sessions
  unfolding process_internal_push_to_users
  internal_push_spares b users h ref deaf =
      push_all_other (gather b.internal_push_users users []) ref h
        (ground (arith, member-gather b.internal_push_users users [] ref))
