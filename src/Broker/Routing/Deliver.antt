-- ===== src/Broker/Routing/Deliver.antt =====
-- base_broker.py: what a message does to the sessions that it is for.
use piltover.Base.{
  Bool, Dict, List, Option, [], false, get, if◌then◌else◌, member, none, not, put, some, true, ℕ,
  ◌&&◌, ◌||◌, ◌∷◌,
}
use piltover.Session.{Session}
use piltover.Session.Outbound.{Outgoing, enqueue}
use piltover.Session.Flush.{Server, Wire}
use piltover.Session.Lifecycle.{flush_outbound}
use piltover.Broker.{Broker, channels_diff_update}
use piltover.Broker.Routing.Targets.{Addressees, ids_of, gather, collect_send_to}

-- The sessions and the connections of their clients, by identity.
pub record Heap : Type 0 where
  pub sessions : Dict Session
  pub wires : Dict Wire

-- The object of a message: `deliverable` is `_deliver_updates_to_internal_push(obj)` and `immediate` is
-- `_updates_need_immediate_flush(obj)`. Neither looks into `NeedsContextValues`, as `enqueue` does for
-- `outgoing.is_updates`.
pub record Payload : Type 0 where
  pub outgoing : Outgoing
  pub deliverable : Bool
  pub immediate : Bool

abbrev auth_ignored : Option ℕ → List ℕ → Bool
auth_ignored none ignored = false
auth_ignored (some id) ignored = member id ignored

-- `await session.flush_outbound()` over the wire of the session's client, if there is one
unfoldable pub flush_in : Server → Heap → ℕ → Session → Heap
flush_in server h ref s = elim (get ref h.wires) [
  | none ↦ record h { sessions = put ref s h.sessions }
  | some w ↦
      let r = flush_outbound server s w in
      record { sessions = put ref r.0 h.sessions; wires = put ref r.1 h.wires }
]

-- The tests at the head of `_deliver`.
unfoldable pub wanted : Payload → List ℕ → Session → Bool
wanted obj ignored s =
    if auth_ignored s.auth_id ignored || (s.is_internal_push && not obj.deliverable)
    then false
    else elim s.client [ none ↦ false | some _ ↦ true ]

module _ (server : Server) (time stored : ℕ) where
  unfoldable pub push_to : Payload → ℕ → Session → Heap → Heap
  push_to obj ref s h =
      let s' = enqueue s time stored obj.outgoing false in
      if obj.immediate
      then flush_in server h ref s'
      else record h { sessions = put ref s' h.sessions }

  unfoldable pub deliver : Payload → List ℕ → ℕ → Heap → Heap
  deliver obj ignored ref h = elim (get ref h.sessions) [
    | none ↦ h
    | some s ↦ if wanted obj ignored s then push_to obj ref s h else h
  ]

  -- The deliveries run at the same time, each on a session of its own; here one after the other.
  unfoldable pub deliver_all : Payload → List ℕ → List ℕ → Heap → Heap
  unfolding deliver
  deliver_all obj ignored [] h = h
  deliver_all obj ignored (ref ∷ refs) h = deliver_all obj ignored refs (deliver obj ignored ref h)

  unfoldable pub process_message_to_users : Broker → Addressees → Payload → Heap → Heap
  unfolding collect_send_to deliver_all
  process_message_to_users b m obj h =
      deliver_all obj (ids_of m.ignore_auth_id) (collect_send_to b m) h

-- `_process_channels_subscribe`, less the cache entries that it deletes
unfoldable update_each : Broker → List ℕ → List ℕ → List ℕ → Broker
update_each b to_delete to_add [] = b
update_each b to_delete to_add (ref ∷ refs) =
    update_each (channels_diff_update b ref to_delete to_add) to_delete to_add refs

unfoldable pub process_channels_subscribe : Broker → List ℕ → List ℕ → Bool → Broker
unfolding gather update_each
process_channels_subscribe b channel_ids user_ids subscribe =
    let sessions = gather b.subscribed_users user_ids [] in
    if subscribe
    then update_each b [] channel_ids sessions
    else update_each b channel_ids [] sessions
