-- ===== src/Gateway/Sessions.antt =====
-- client.py: the sessions of a connection, which it keeps in a cache of four.
use piltover.Base.{Bool, List, Option, [], false, get, none, some, ℕ, ◌∷◌}
use piltover.Tl.Codec.{Bytes}
use piltover.Session.{AuthData, Session}
use piltover.Broker.{key_id}
use piltover.Manager
use piltover.Manager.{Manager}
use piltover.Gateway.{LruOps, Client, World}

abbrev or_zero : Option ℕ → ℕ
or_zero none = 0
or_zero (some id) = id

-- `Session.uniq_id`
abbrev pub uniq_id : Session → ℕ × ℕ
uniq_id s = (or_zero (key_id s.auth_data), s.session_id)

-- `_session_evicted`, where something was evicted
unfoldable pub session_evicted : Option ℕ → Manager → Manager
session_evicted none m = m
session_evicted (some ref) m = Manager.disconnect m ref

module _ {C D : Type 0} (sessions : LruOps (ℕ × ℕ) ℕ C) (keys : LruOps ℕ Bytes D) where
  -- The session, and the cache after the read.
  unfoldable pub get_cached_session : Client C D → ℕ → ℕ → Option ℕ × Client C D
  get_cached_session c auth_key_id session_id =
      elim (sessions.find (auth_key_id, session_id) c.active_sessions) [
        | none ↦ (none, c)
        | some ref ↦ (
          some ref,
          record c { active_sessions = sessions.touch (auth_key_id, session_id) c.active_sessions },
        )
      ]

  -- `self.active_sessions[session.uniq_id()] = session`
  unfoldable pub activate : ℕ → Session → Client C D → Manager → Client C D × Manager
  unfolding session_evicted
  activate ref s c m =
      let (gone, cache) = sessions.set (uniq_id s) ref c.active_sessions in
      (record c { active_sessions = cache }, session_evicted gone m)

  -- The rest of `_get_session`, when the session is not in the cache.
  unfoldable pub open_session : World C D → ℕ → AuthData → (ℕ × Bool) × World C D
  unfolding Manager.get_or_create Manager.connect activate
  open_session w session_id auth_data =
      let ((ref, created), m) = Manager.get_or_create w.manager session_id w.client.id auth_data in
      let m' = Manager.connect m ref w.client.id in
      elim (get ref m'.heap) [
        | none ↦ ((ref, created), record w { manager = m' })
        | some s ↦
            let (c, m'') = activate ref s w.client m' in
            ((ref, created), record w { client = c; manager = m'' })
      ]

  unfoldable pub get_session : World C D → ℕ → ℕ → AuthData → (ℕ × Bool) × World C D
  unfolding get_cached_session open_session
  get_session w auth_key_id session_id auth_data =
      let (cached, c) = get_cached_session w.client auth_key_id session_id in
      elim cached [
        | some ref ↦ ((ref, false), record w { client = c })
        | none ↦ open_session (record w { client = c }) session_id auth_data
      ]

  -- `del` of a key that is not there is caught.
  unfoldable pub drop_auth_key : ℕ → ℕ → World C D → World C D
  drop_auth_key auth_key_id ref w = elim (get ref w.manager.heap) [
    | none ↦ w
    | some s ↦ record w {
      client = record w.client {
        active_keys = keys.delete auth_key_id w.client.active_keys;
        active_sessions = sessions.delete (uniq_id s) w.client.active_sessions;
      };
      manager = Manager.disconnect w.manager ref;
    }
  ]

  -- The end of `worker`.
  disconnect_all : List ℕ → Manager → Manager
  disconnect_all [] m = m
  disconnect_all (ref ∷ refs) m = disconnect_all refs (Manager.disconnect m ref)

  unfoldable close : World C D → World C D
  unfolding disconnect_all
  close w = record w {
    client = record w.client { active_sessions = sessions.empty };
    manager = disconnect_all (sessions.values w.client.active_sessions) w.manager;
  }
