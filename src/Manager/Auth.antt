-- ===== src/Manager/Auth.antt =====
-- session.py: `_reset_auth` and `refresh_auth_maybe`: the session follows what the database says of
-- its auth key.
pub mod Push
pub mod Calls
pub mod Follows
use piltover.Base.{
  Bool, List, Option, [], false, if◌then◌else◌, ltb, member, none, not, some, true, union, ℕ, ◌&&◌,
  ◌*◌, ◌+◌, ◌==◌, ◌||◌, ◌∷◌,
}
use piltover.Session.{AuthData, Session}
use piltover.Broker
use piltover.Broker.{Broker}

-- A row of `UserAuthorization`, as far as it is read.
pub record Authorization : Type 0 where
  pub id : ℕ
  pub user_id : ℕ
  pub is_bot : Bool
  pub mfa_pending : Bool
  pub upd_seq : ℕ

-- What the database answers: `AuthKey.get_auth_data`, the authorization of the key, and the channels
-- of its user, cached or not.
pub record Answers : Type 0 where
  pub auth_data : Option AuthData
  pub authorization : Option Authorization
  pub channel_ids : ℕ → List ℕ

unfoldable pub reset_auth : ℕ → Session → Broker → Session × Broker
reset_auth ref s b =
    let b₁ = Broker.unsubscribe_auth b s.auth_id ref in
    let b₂ = Broker.unsubscribe_user b₁ s.user_id ref in
    let b₃ = Broker.channels_diff_update b₂ ref s.channel_ids [] in
    (
      record s {
        user_id = none;
        auth_id = none;
        is_bot = false;
        mfa_pending = false;
        upd_seq = none;
        channel_ids = [];
      },
      b₃,
    )

-- Set difference, and a list as a set.
abbrev pub minus : List ℕ → List ℕ → List ℕ
minus [] ys = []
minus (x ∷ xs) ys = let rest = minus xs ys in if member x ys then rest else x ∷ rest

unfoldable pub refresh_channels : ℕ → Session → Broker → List ℕ → ℕ → Session × Broker
refresh_channels ref s b channel_ids time =
    let new_channels = union [] channel_ids in
    (
      record s { channels_loaded_at = time; channel_ids = new_channels },
      Broker.channels_diff_update b ref (minus s.channel_ids new_channels)
          (minus new_channels s.channel_ids),
    )

abbrev pub same_id : Option ℕ → Option ℕ → Bool
same_id none none = true
same_id (some a) (some b) = a == b
same_id _ _ = false

-- The last two tests of `refresh_auth_maybe`: `if old:` is left to the broker's own test.
unfoldable pub move_subscriptions : ℕ → Option ℕ → Option ℕ → Session → Broker → Broker
move_subscriptions ref old_user_id old_auth_id s b =
    let b₁ =
      if same_id old_user_id s.user_id
      then b
      else Broker.subscribe_user (Broker.unsubscribe_user b old_user_id ref) s.user_id ref in
    if same_id old_auth_id s.auth_id
    then b₁
    else Broker.subscribe_auth (Broker.unsubscribe_auth b₁ old_auth_id ref) s.auth_id ref

abbrev pub minute_us : ℕ
minute_us = 60000000

-- The channels are fetched again if they are older than five minutes and the login is complete.
unfoldable pub channels_maybe : ℕ → Answers → ℕ → Session → Broker → Session × Broker
unfolding refresh_channels
channels_maybe ref db time s b =
    let wanted =
      not (same_id s.auth_id none)
      && not s.mfa_pending
      && ltb (s.channels_loaded_at + 5 * minute_us) time in
    if wanted
    then refresh_channels ref s b (elim s.user_id [ none ↦ [] | some u ↦ db.channel_ids u ]) time
    else (s, b)

unfoldable pub after_auth :
    ℕ → Option ℕ → Option ℕ → Answers → ℕ → Session → Broker → Session × Broker
unfolding channels_maybe move_subscriptions
after_auth ref old_user_id old_auth_id db time s b =
    let (s', b') = channels_maybe ref db time s b in
    (s', move_subscriptions ref old_user_id old_auth_id s' b')

unfoldable pub adopt : Session → Authorization → Session
adopt s auth = record s {
  user_id = some auth.user_id;
  auth_id = some auth.id;
  is_bot = auth.is_bot;
  mfa_pending = auth.mfa_pending;
  upd_seq = some auth.upd_seq;
}

-- The authorization that was looked up under the key, if there is one.
unfoldable pub authorized :
    ℕ → Answers → ℕ → Session → Broker → Option Authorization → Session × Broker
unfolding reset_auth after_auth adopt
authorized ref db time s b none = reset_auth ref s b
authorized ref db time s b (some auth) = after_auth ref s.user_id s.auth_id db time (adopt s auth) b

-- With both keys there: the authorization is fetched again after a minute, by force, or if none is
-- known.
unfoldable pub refresh_keyed : ℕ → Bool → Answers → ℕ → Session → Broker → Session × Broker
unfolding authorized
refresh_keyed ref force db time s b =
    if ltb (s.auth_loaded_at + minute_us) time || force || same_id s.auth_id none
    then authorized ref db time (record s { auth_loaded_at = time }) b db.authorization
    else after_auth ref s.user_id s.auth_id db time s b

abbrev pub both : Option ℕ → Option ℕ → Bool
both (some _) (some _) = true
both _ _ = false

unfoldable pub refresh_data :
    ℕ → Bool → Answers → ℕ → Session → Broker → AuthData → Session × Broker
unfolding refresh_keyed
refresh_data ref force db time s b auth =
    if both auth.auth_key_id auth.perm_auth_key_id
    then refresh_keyed ref force db time s b
    else reset_auth ref s b

-- The key's data are read again by force; if the key is gone, what follows is an `AttributeError`.
unfoldable pub reloaded :
    ℕ → Answers → ℕ → Session → Broker → Option AuthData → Option (Session × Broker)
unfolding refresh_data
reloaded ref db time s b none = none
reloaded ref db time s b (some auth) =
    some (refresh_data ref true db time (record s { auth_data = some auth }) b auth)

unfoldable pub refresh_known :
    ℕ → Bool → Answers → ℕ → Session → Broker → Option AuthData → Option (Session × Broker)
unfolding reloaded
refresh_known ref force db time s b none = some (s, b)
refresh_known ref force db time s b (some old) =
    if force && not (same_id old.auth_key_id none)
    then reloaded ref db time s b db.auth_data
    else some (refresh_data ref force db time s b old)

unfoldable pub refresh_auth_maybe :
    ℕ → Bool → Answers → ℕ → Session → Broker → Option (Session × Broker)
unfolding refresh_known
refresh_auth_maybe ref force db time s b = refresh_known ref force db time s b s.auth_data
