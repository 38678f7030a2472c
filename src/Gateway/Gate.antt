-- ===== src/Gateway/Gate.antt =====
-- client.py: whether an auth key may be used, and what is done if not.
pub mod Refused
use piltover.Base.{Bool, Option, get, if◌then◌else◌, member, none, not, put, some, true, ℕ, ◌∷◌}
use piltover.Tl.Codec.{Bytes}
use piltover.Session.{Session}
use piltover.Session.Outbound
use piltover.AuthKeys.{is_registered, can_bind_temp_auth_key}
use piltover.Gateway.{LruOps, World}
use piltover.Gateway.Requests.{Answer, Env, rpc_result, rpc_error, auth_key_unregistered}
use piltover.Gateway.Sessions.{drop_auth_key}

pub data AuthGateResult : Type 0 where
  ok : AuthGateResult
  drop : AuthGateResult
  unregistered : AuthGateResult

abbrev pub on_session : {C D : Type 0} → ℕ → (Session → Session) → World C D → World C D
on_session ref f w = elim (get ref w.manager.heap) [
  | none ↦ w
  | some s ↦ record w { manager = record w.manager { heap = put ref (f s) w.manager.heap } }
]

-- `session.enqueue(answer, in_reply)`
unfoldable pub enqueue : {C D : Type 0} → Env → ℕ → Answer → Bool → World C D → World C D
unfolding Outbound.enqueue
enqueue env ref answer in_reply w =
    on_session ref (λ s. Outbound.enqueue s env.time env.stored (env.encode answer) in_reply) w

abbrev may_bind : {C D : Type 0} → Option ℕ → World C D → ℕ → ℕ → Bool
may_bind none w now auth_key_id = true
may_bind (some perm_key_id) w now auth_key_id =
    can_bind_temp_auth_key w.tables now auth_key_id perm_key_id

-- The last argument is `perm_auth_key_id` if the object is a `BindTempAuthKey`.
unfoldable pub auth_gate : {C D : Type 0} → World C D → ℕ → ℕ → Option ℕ → AuthGateResult
unfolding is_registered can_bind_temp_auth_key
auth_gate w now auth_key_id bind =
    if member auth_key_id w.client.rejected_auth_keys
    then drop
    else if not (is_registered w.tables now auth_key_id)
    then unregistered
    else if not (may_bind bind w now auth_key_id)
    then unregistered
    else ok

abbrev pub reject : {C D : Type 0} → ℕ → World C D → World C D
reject auth_key_id w = record w {
  client = record w.client { rejected_auth_keys = auth_key_id ∷ w.client.rejected_auth_keys };
}

module _ {C D : Type 0} (sessions : LruOps (ℕ × ℕ) ℕ C) (keys : LruOps ℕ Bytes D) where
  unfoldable pub respond_auth_key_unregistered : Env → ℕ → ℕ → ℕ → World C D → World C D
  unfolding enqueue drop_auth_key
  respond_auth_key_unregistered env message_id ref auth_key_id w =
      if member auth_key_id w.client.rejected_auth_keys
      then w
      else drop_auth_key sessions keys auth_key_id ref (
          enqueue env ref (rpc_result message_id (rpc_error 401 auth_key_unregistered)) true
            (reject auth_key_id w))
