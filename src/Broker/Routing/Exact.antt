-- ===== src/Broker/Routing/Exact.antt =====
-- base_broker.py: a message reaches each session that it is for once, and no other.
use piltover.Base.{
  Bool, List, Option, Option-cases, arith, false, get, get-put, if◌then◌else◌, inl, inr, member,
  none, not, some, true, ℕ, ◌&&◌, ◌==◌, ◌||◌, ◌≡◌,
}
use piltover.Session.{Session}
use piltover.Session.Outbound.{enqueue}
use piltover.Session.Flush.{Server, Wire}
use piltover.Session.Lifecycle.{flush_outbound}
use piltover.Broker.{Broker}
use piltover.Broker.Routing.Deliver.{Heap, Payload, flush_in}

module _ (server : Server) (time stored : ℕ) (obj : Payload) where
  -- What a delivery makes of a session with a given connection.
  abbrev pub pushed : Session → Option Wire → Session
  pushed s none = enqueue s time stored obj.outgoing false
  pushed s (some w) =
      let s' = enqueue s time stored obj.outgoing false in
      if obj.immediate then (flush_outbound server s' w).0 else s'

module _ (server : Server) where
  pub flush_in_other :
      (ref other : ℕ) (h : Heap) (s : Session)
      → (ref == other) ≡ false
      → (get other (flush_in server h ref s).sessions ≡ get other h.sessions)
        × (get other (flush_in server h ref s).wires ≡ get other h.wires)
  unfolding flush_in
  flush_in_other ref other h s apart = elim (Option-cases (get ref h.wires)) [
    | inl e ↦ (ground (arith, e, get-put ref other s h.sessions), ground (arith, e))
    | inr (w, e) ↦ (
      ground (arith, e, get-put ref other (flush_outbound server s w).0 h.sessions),
      ground (arith, e, get-put ref other (flush_outbound server s w).1 h.wires),
    )
  ]

abbrev has_client : Session → Bool
has_client s = elim s.client [ none ↦ false | some _ ↦ true ]

-- A session takes a message if it has a client, its authorization is not among those to ignore, and
-- the message is not kept from internal pushes.
abbrev pub takes : Bool → List ℕ → Session → Bool
takes deliverable ignored s =
    has_client s
    && not (elim s.auth_id [ none ↦ false | some id ↦ member id ignored ])
    && (deliverable || not s.is_internal_push)
