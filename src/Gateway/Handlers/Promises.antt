-- ===== src/Gateway/Handlers/Promises.antt =====
-- _system_handlers.py: the salts that are promised to a client are those that its session will use.
use piltover.Base.{
  All, Bool, List, Option, ap, arith, get, length, min, none, refl, some, suc, zero, ℕ, ◌*◌, ◌+◌,
  ◌/◌, ◌<◌, ◌∙◌, ◌≡◌, ◌≤◌,
}
use piltover.Base.Ints.{ℤ}
use piltover.Session.{AuthData, Session}
use piltover.Session.MsgId.{seconds}
use piltover.Session.Salts.{
  key_of, HasSalts, half_hour, update_salts_maybe, update_salts_maybe-HasSalts,
}
use piltover.Broker.{key_id}
use piltover.Gateway.{World}
use piltover.Gateway.Action.{done}
use piltover.Gateway.Requests.{Env, FutureSalt, future_salts}
use piltover.Gateway.Handlers.{
  at_least_one, future_salt, salts_from, get_future_salts, with_session,
}

-- At each time of the salt's validity, forced or not, an update gives the session this salt, unless
-- the session has salts of that half hour that are wrong.
abbrev pub Kept : Env → Session → ℕ → FutureSalt → Type 0
Kept env s id p =
    (time : ℕ) (force : Bool)
    → p.valid_since ≤ seconds time
    → seconds time < p.valid_until
    → (s.salt_now.valid_at ≡ time / half_hour → HasSalts env.make_salt s env.salt_key id)
    → (update_salts_maybe env.make_salt s env.salt_key force time).salt_now.salt ≡ p.salt

key_of-key_id : (o : Option AuthData) → key_of o ≡ key_id o
key_of-key_id none = refl
key_of-key_id (some a) = refl

future_salt-Kept :
    (env : Env) (s : Session) (id number : ℕ)
    → key_id s.auth_data ≡ some id
    → Kept env s id (future_salt env id number)
unfolding future_salt
future_salt-Kept env s id number k time force after before old =
    let (has, at) =
      update_salts_maybe-HasSalts env.make_salt s env.salt_key id force time
        (key_of-key_id s.auth_data ∙ k) old in
    let eq : time / half_hour ≡ number = omega (arith, after, before) in
    has.now ∙ ap (env.make_salt env.salt_key id) (at ∙ eq)

salts_from-Kept :
    (env : Env) (s : Session) (id number limit : ℕ)
    → key_id s.auth_data ≡ some id
    → All (Kept env s id) (salts_from env id number limit)
unfolding salts_from
salts_from-Kept env s id number zero k = tt
salts_from-Kept env s id number (suc limit) k =
    (future_salt-Kept env s id number k, salts_from-Kept env s id (number + 1) limit k)

length-salts_from :
    (env : Env) (id number limit : ℕ) → length (salts_from env id number limit) ≡ limit
unfolding salts_from
length-salts_from env id number zero = refl
length-salts_from env id number (suc limit) = ap suc (length-salts_from env id (number + 1) limit)

-- A client whose session has an auth key gets as many salts as it asks for, but at least one and at
-- most 64, and nothing else changes. Each of them is the salt that an update gives its session at any
-- time of the salt's validity, unless the session then has salts of that half hour that are wrong.
pub get_future_salts-Kept :
    {C D : Type 0} (env : Env) (message_id ref id : ℕ) (num : ℤ) (s : Session) (w : World C D)
    → get ref w.manager.heap ≡ some s
    → key_id s.auth_data ≡ some id
    → (salts : List FutureSalt) × (get_future_salts env message_id ref num w
        ≡ (done (future_salts message_id (seconds env.time) salts), w))
      × (length salts ≡ min (at_least_one num) 64)
      × All (Kept env s id) salts
unfolding get_future_salts
get_future_salts-Kept env m ref id num s w e k =
    let limit : ℕ = min (at_least_one num) 64 in
    let number = seconds env.time / (30 * 60) in
    (
      salts_from env id number limit,
      rw (e, with_session, k) refl,
      length-salts_from env id number limit,
      salts_from-Kept env s id number limit k,
    )
