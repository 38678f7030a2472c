-- ===== src/Gateway.antt =====
-- piltover/gateway/client.py: the state of a connection, and what it shares with the rest of the
-- server. The sessions of a connection are in the heap of the manager; a connection knows them by
-- identity. Times are microseconds.
pub mod Action
pub mod Requests
pub mod Sessions
pub mod Gate
pub mod Handlers
pub mod Worker
pub mod Tracks
pub mod Steps
pub mod Process
pub mod Receive
pub mod SendLoop
use piltover.Base.{List, Option, none, some, ℕ, ◌≡◌, ◌⊎◌}
use piltover.AuthKeys.{Tables}
use piltover.Manager.{Manager}

-- A dict of bounded size, of the package `lru`. `touch` is what a read does to the order, and `set`
-- gives what it evicts, with which the package calls the callback.
pub record LruOps (K V Lru : Type 0) : Type 0 where
  pub find : K → Lru → Option V
  pub touch : K → Lru → Lru
  pub set : K → V → Lru → Option V × Lru
  pub delete : K → Lru → Lru
  pub values : Lru → List V
  pub empty : Lru

-- An order that changes hides nothing; what is set is there, all else that is there was there, and
-- what is evicted stood at a key that is not there any more.
pub record IsLru {K V Lru : Type 0} (ops : LruOps K V Lru) : Type 0 where
  pub find-touch : (j k : K) (c : Lru) → ops.find j (ops.touch k c) ≡ ops.find j c
  pub find-set : (k : K) (v : V) (c : Lru) → ops.find k (ops.set k v c).1 ≡ some v
  pub find-set_other :
      (j k : K) (v w : V) (c : Lru)
      → ops.find j (ops.set k v c).1 ≡ some w
      → (j ≡ k) ⊎ (ops.find j c ≡ some w)
  pub evicted :
      (k : K) (v w : V) (c : Lru)
      → (ops.set k v c).0 ≡ some w
      → (j : K) × (ops.find j c ≡ some w) × (ops.find j (ops.set k v c).1 ≡ none)
  pub find-delete : (k : K) (c : Lru) → ops.find k (ops.delete k c) ≡ none
  pub find-delete_other :
      (j k : K) (w : V) (c : Lru) → ops.find j (ops.delete k c) ≡ some w → ops.find j c ≡ some w

-- `asyncio.timeout`: the time at which it expires, if it is set
pub record Timeout : Type 0 where
  pub when : Option ℕ

-- `Client`. `C` is the type of the cache of sessions, `D` that of caches by the ids of keys.
pub record Client (C D : Type 0) : Type 0 where
  pub id : ℕ
  pub active_sessions : C
  pub active_keys : D
  pub rejected_auth_keys : List ℕ
  pub disconnect_timeout : Option Timeout
  pub keygen_session : ℕ

pub record World (C D : Type 0) : Type 0 where
  pub client : Client C D
  pub manager : Manager
  pub unknown_auth_key_ids : D
  pub tables : Tables
