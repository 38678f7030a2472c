-- ===== src/Manager/Dispatch.antt =====
-- base_broker.py: `_process_message`, which hands a message to its handler, over the sessions of the
-- manager and the connections of their clients.
use piltover.Base.{
  Bool, Dict, List, Option, arith, get, get-put, none, put, refl, some, true, ℕ, ◌≡◌, ◌≢◌,
}
use piltover.Session.{Session}
use piltover.Session.Outbound.{Outgoing}
use piltover.Session.Flush.{Server, Wire}
use piltover.Broker
use piltover.Broker.{Broker}
use piltover.Broker.Subs.{hears, names}
use piltover.Broker.Leaks.{subscribe_pushes}
use piltover.Broker.Routing.Targets.{Addressees, AddresseesShort, widen}
use piltover.Broker.Routing.Deliver.{
  Heap, Payload, process_message_to_users, process_channels_subscribe,
}
use piltover.Broker.Routing.Push.{process_internal_push_to_users}
use piltover.Manager.{Manager, lookup}
use piltover.Manager.Auth.{Answers, refresh_auth_maybe}
use piltover.Manager.Auth.Calls.{refresh_auth_maybe-is_internal_push}
use piltover.Manager.Auth.Follows.{refresh_auth_maybe_returns}

-- The kinds of message. A short internal push names one user, the other a list of them.
pub data MessageInternal : Type 0 where
  message_to_users : Addressees → Payload → MessageInternal
  message_to_users_short : AddresseesShort → Payload → MessageInternal
  set_session_internal_push : ℕ → ℕ → MessageInternal
  channel_subscribe : List ℕ → List ℕ → Bool → MessageInternal
  internal_push_for_users : List ℕ → MessageInternal

pub record World : Type 0 where
  pub manager : Manager
  pub wires : Dict Wire

abbrev heap_of : World → Heap
heap_of w = record { sessions = w.manager.heap; wires = w.wires }

abbrev with_heap : World → Heap → World
with_heap w h = record { manager = record w.manager { heap = h.sessions }; wires = h.wires }

abbrev with_broker : World → Broker → World
with_broker w b = record w { manager = record w.manager { broker = b } }

-- The session is on internal pushes, and those of its user reach it.
abbrev pub IsPushed : ℕ → World → Type 0
IsPushed ref w =
    (s : Session) × (get ref w.manager.heap ≡ some s)
    × (s.is_internal_push ≡ true)
    × ((j : ℕ) → names s.user_id j ≡ true → hears w.manager.broker.internal_push_users j ref ≡ true)

-- What the process knows: the clock, what is stored with a message, and the answers of the database.
module _ (server : Server) (time stored : ℕ) (db : Answers) (too_long : Outgoing) where
  -- The session is fetched anew and then subscribed; `none` for the exception of a refresh.
  unfoldable register_push : ℕ → Session → World → Option World
  register_push ref s w =
      elim (refresh_auth_maybe ref true db time (record s { is_internal_push = true })
        w.manager.broker) [
          | none ↦ none
          | some (s', b) ↦ some (record w {
            manager = record w.manager {
              heap = put ref s' w.manager.heap;
              broker = Broker.subscribe b ref s';
            };
          })
        ]

  unfoldable set_push : ℕ → ℕ → World → Option World
  unfolding register_push
  set_push key_id session_id w = elim (lookup (some key_id) session_id w.manager.sessions) [
    | none ↦ some w
    | some ref ↦ elim (get ref w.manager.heap) [ none ↦ some w | some s ↦ register_push ref s w ]
  ]

  unfoldable pub process_message : MessageInternal → World → Option World
  unfolding set_push
  process_message (message_to_users m obj) w =
      some (
        with_heap w
          (process_message_to_users server time stored w.manager.broker m obj (heap_of w)))
  process_message (message_to_users_short m obj) w = some (
      with_heap w
        (process_message_to_users server time stored w.manager.broker (widen m) obj (heap_of w)))
  process_message (set_session_internal_push key_id session_id) w = set_push key_id session_id w
  process_message (channel_subscribe channel_ids user_ids subscribe) w =
      some
        (with_broker w (process_channels_subscribe w.manager.broker channel_ids user_ids subscribe))
  process_message (internal_push_for_users users) w = some (
      with_heap w (
        process_internal_push_to_users server time stored too_long w.manager.broker users
          (heap_of w)))

  register_push-IsPushed :
      (ref : ℕ) (s : Session) (w : World)
      → db.auth_data ≢ none
      → (w' : World) × (register_push ref s w ≡ some w') × IsPushed ref w'
  unfolding register_push
  register_push-IsPushed ref s w known =
      let on = record s { is_internal_push = true } in
      let ((s', b), e) =
        refresh_auth_maybe_returns ref true db time on w.manager.broker (λ _. known) in
      let kept = refresh_auth_maybe-is_internal_push ref true db time on s' w.manager.broker b e in
      (
        record w {
          manager = record w.manager {
            heap = put ref s' w.manager.heap;
            broker = Broker.subscribe b ref s';
          };
        },
        rw (register_push, e) refl,
        (
          s',
          ground (arith, get-put ref ref s' w.manager.heap),
          kept,
          λ j own. subscribe_pushes b ref s' j kept own,
        ),
      )

  -- A message that sets a registered session to internal pushes returns, if the database has the data
  -- of the session's key. The session is then on internal pushes, and the broker has it among those
  -- that get the internal pushes of the session's user.
  pub set_session_internal_push-IsPushed :
      (w : World) (key_id session_id ref : ℕ) (s : Session)
      → lookup (some key_id) session_id w.manager.sessions ≡ some ref
      → get ref w.manager.heap ≡ some s
      → db.auth_data ≢ none
      → (w' : World) × (process_message (set_session_internal_push key_id session_id) w ≡ some w')
        × IsPushed ref w'
  unfolding process_message set_push
  set_session_internal_push-IsPushed w key_id session_id ref s there found known =
      let (w', e, pushed) = register_push-IsPushed ref s w known in
      (w', rw (process_message, set_push, there, found) e, pushed)
