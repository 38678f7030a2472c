-- ===== src/Manager/Auth/Calls.antt =====
-- session.py: a refresh does not touch the record of completed calls, nor the choice of internal pushes.
use piltover.Base.{
  Bool, Option, arith, if_intro, ltb, none, not, refl, some, subst, true, ℕ, ◌&&◌, ◌+◌, ◌||◌, ◌≡◌,
}
use piltover.Session.{AuthData, Session}
use piltover.Broker.{Broker}
use piltover.Manager.Auth.{
  Answers, Authorization, reset_auth, refresh_channels, channels_maybe, after_auth, adopt,
  authorized, refresh_keyed, reloaded, refresh_known, refresh_data, refresh_auth_maybe, both,
  same_id, minute_us,
}

abbrev SameRpc : Session → Session × Broker → Type 0
SameRpc s r = (r.0.rpc ≡ s.rpc) × (r.0.is_internal_push ≡ s.is_internal_push)

reset_auth-rpc : (ref : ℕ) (s : Session) (b : Broker) → SameRpc s (reset_auth ref s b)
unfolding reset_auth
reset_auth-rpc ref s b = (refl, refl)

after_auth-rpc :
    (ref : ℕ) (u a : Option ℕ) (db : Answers) (time : ℕ) (s : Session) (b : Broker)
    → SameRpc s (after_auth ref u a db time s b)
unfolding after_auth channels_maybe refresh_channels
after_auth-rpc ref u a db time s b = ground arith

authorized-rpc :
    (ref : ℕ) (db : Answers) (time : ℕ) (s : Session) (b : Broker) (o : Option Authorization)
    → SameRpc s (authorized ref db time s b o)
unfolding authorized adopt
authorized-rpc ref db time s b none = reset_auth-rpc ref s b
authorized-rpc ref db time s b (some auth) =
    after_auth-rpc ref s.user_id s.auth_id db time (adopt s auth) b

refresh_data-rpc :
    (ref : ℕ) (force : Bool) (db : Answers) (time : ℕ) (s : Session) (b : Broker) (auth : AuthData)
    → SameRpc s (refresh_data ref force db time s b auth)
unfolding refresh_data refresh_keyed
refresh_data-rpc ref force db time s b auth =
    if_intro (SameRpc s) (both auth.auth_key_id auth.perm_auth_key_id)
      (if_intro (SameRpc s)
        (ltb (s.auth_loaded_at + minute_us) time || force || same_id s.auth_id none)
        (authorized-rpc ref db time (record s { auth_loaded_at = time }) b db.authorization)
        (after_auth-rpc ref s.user_id s.auth_id db time s b))
      (reset_auth-rpc ref s b)

abbrev Kept : Session → Option (Session × Broker) → Type 0
Kept s none = Unit
Kept s (some r) = SameRpc s r

reloaded-rpc :
    (ref : ℕ) (db : Answers) (time : ℕ) (s : Session) (b : Broker) (o : Option AuthData)
    → Kept s (reloaded ref db time s b o)
unfolding reloaded
reloaded-rpc ref db time s b none = tt
reloaded-rpc ref db time s b (some auth) =
    refresh_data-rpc ref true db time (record s { auth_data = some auth }) b auth

known-rpc :
    (ref : ℕ) (force : Bool) (db : Answers) (time : ℕ) (s : Session) (b : Broker)
    (o : Option AuthData)
    → Kept s (refresh_known ref force db time s b o)
unfolding refresh_known
known-rpc ref force db time s b none = (refl, refl)
known-rpc ref force db time s b (some old) =
    if_intro (Kept s) (force && not (same_id old.auth_key_id none))
      (reloaded-rpc ref db time s b db.auth_data) (refresh_data-rpc ref force db time s b old)

pub refresh_auth_maybe-rpc :
    (ref : ℕ) (force : Bool) (db : Answers) (time : ℕ) (s s' : Session) (b b' : Broker)
    → refresh_auth_maybe ref force db time s b ≡ some (s', b')
    → s'.rpc ≡ s.rpc
unfolding refresh_auth_maybe
refresh_auth_maybe-rpc ref force db time s s' b b' e =
    (subst (Kept s) e (known-rpc ref force db time s b s.auth_data)).0

pub refresh_auth_maybe-is_internal_push :
    (ref : ℕ) (force : Bool) (db : Answers) (time : ℕ) (s s' : Session) (b b' : Broker)
    → refresh_auth_maybe ref force db time s b ≡ some (s', b')
    → s'.is_internal_push ≡ s.is_internal_push
unfolding refresh_auth_maybe
refresh_auth_maybe-is_internal_push ref force db time s s' b b' e =
    (subst (Kept s) e (known-rpc ref force db time s b s.auth_data)).1
