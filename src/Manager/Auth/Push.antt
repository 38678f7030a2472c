-- ===== src/Manager/Auth/Push.antt =====
-- session.py: what becomes of subscriptions when the authorization of a session changes.
use piltover.Base.{false, refl, ℕ, ◌≡◌}
use piltover.Session.{Session}
use piltover.Broker
use piltover.Broker.{Broker}
use piltover.Broker.Subs.{hears, remove_from, add_each}
use piltover.Broker.Leaks.{IsOwn, removed, removed_each}
use piltover.Manager.Auth.{reset_auth}

-- What a session may still be known under after a logout.
pub record IsLoggedOut (b : Broker) (ref : ℕ) : Type 0 where
  pub users : (j : ℕ) → hears b.subscribed_users j ref ≡ false
  pub auths : (j : ℕ) → hears b.subscribed_auths j ref ≡ false
  pub channels : (j : ℕ) → hears b.subscribed_channels j ref ≡ false

-- A logout takes a session that is known under its own ids only out of the users, the authorizations
-- and the channels.
reset_auth-IsLoggedOut :
    (ref : ℕ) (s : Session) (b : Broker) → IsOwn b ref s → IsLoggedOut (reset_auth ref s b).1 ref
unfolding reset_auth Broker.unsubscribe_auth Broker.unsubscribe_user Broker.channels_diff_update
    add_each
reset_auth-IsLoggedOut ref s b own = record {
  users = λ j. removed s.user_id ref b.subscribed_users j (own.users j);
  auths = λ j. removed s.auth_id ref b.subscribed_auths j (own.auths j);
  channels = λ j. removed_each s.channel_ids ref b.subscribed_channels j (own.channels j);
}

-- A session that is subscribed to internal pushes of a user stays so through a logout and the
-- `unsubscribe` that ends the session after it.
pub reset_auth_keeps_push :
    (ref : ℕ) (s : Session) (b : Broker) (j : ℕ)
    → let (s', b') = reset_auth ref s b in
      hears (Broker.unsubscribe b' ref s').internal_push_users j ref
      ≡ hears b.internal_push_users j ref
unfolding reset_auth Broker.unsubscribe Broker.unsubscribe_auth Broker.unsubscribe_user
    Broker.channels_diff_update remove_from
reset_auth_keeps_push ref s b j = refl
