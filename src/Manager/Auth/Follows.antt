-- ===== src/Manager/Auth/Follows.antt =====
-- session.py: after a refresh the broker knows the session under its new ids.
use piltover.Base.{
  ==→eq, Bool, Bool-cases, List, Option, Option-cases, [], ap, arith, if_intro, if◌then◌else◌, inl,
  inr, ltb, member, none, not, refl, some, subst, sym, true, union, ℕ, ◌&&◌, ◌*◌, ◌+◌, ◌==◌, ◌∙◌,
  ◌∷◌, ◌≡◌, ◌≢◌,
}
use piltover.Session.{AuthData, Session}
use piltover.Broker
use piltover.Broker.{Broker}
use piltover.Broker.Subs.{
  SetDict, hears, names, hears-add_to, hears-remove_from, hears-add_each, hears-remove_each, add_to,
  remove_from, add_each, remove_each,
}
use piltover.Broker.Leaks.{removed, removed_each}
use piltover.Manager.Auth.{
  Answers, Authorization, reset_auth, minus, refresh_channels, same_id, move_subscriptions,
  channels_maybe, after_auth, adopt, authorized, refresh_keyed, reloaded, refresh_known,
  refresh_data, refresh_auth_maybe, minute_us,
}

-- The broker knows `ref` exactly under the given user, authorization and channels.
pub record Follows (b : Broker) (ref : ℕ) (user_id auth_id : Option ℕ) (channel_ids : List ℕ)
    : Type 0 where
  pub users : (j : ℕ) → hears b.subscribed_users j ref ≡ names user_id j
  pub auths : (j : ℕ) → hears b.subscribed_auths j ref ≡ names auth_id j
  pub channels : (j : ℕ) → hears b.subscribed_channels j ref ≡ member j channel_ids

abbrev FollowsSession : ℕ → Session × Broker → Type 0
FollowsSession ref (s, b) = Follows b ref s.user_id s.auth_id s.channel_ids

member-minus :
    (xs ys : List ℕ) (j : ℕ) → member j (minus xs ys) ≡ (member j xs && not (member j ys))
member-minus [] ys j = refl
member-minus (x ∷ xs) ys j = elim (Bool-cases (x == j)) [
  | inl e ↦
      let same : member x ys ≡ member j ys = ap (λ k. member k ys) (==→eq x j e) in
      ground (arith, member-minus xs ys j, same)
  | inr e ↦ ground (arith, member-minus xs ys j)
]

reset_auth-Follows :
    (ref : ℕ) (s : Session) (b : Broker)
    → Follows b ref s.user_id s.auth_id s.channel_ids
    → FollowsSession ref (reset_auth ref s b)
unfolding reset_auth Broker.unsubscribe_auth Broker.unsubscribe_user Broker.channels_diff_update
    add_each
reset_auth-Follows ref s b f = record {
  users = λ j. removed s.user_id ref b.subscribed_users j (λ e. sym (f.users j) ∙ e);
  auths = λ j. removed s.auth_id ref b.subscribed_auths j (λ e. sym (f.auths j) ∙ e);
  channels =
      λ j. removed_each s.channel_ids ref b.subscribed_channels j (λ e. sym (f.channels j) ∙ e);
}

refresh_channels-Follows :
    (ref : ℕ) (s : Session) (b : Broker) (ids : List ℕ) (time : ℕ) (u a : Option ℕ)
    → Follows b ref u a s.channel_ids
    → let (s', b') = refresh_channels ref s b ids time in Follows b' ref u a s'.channel_ids
unfolding refresh_channels Broker.channels_diff_update
refresh_channels-Follows ref s b ids time u a f = record {
  users = f.users;
  auths = f.auths;
  channels = λ j.
      let new = union [] ids in
      ground (
        arith,
        f.channels j,
        hears-add_each (minus new s.channel_ids) ref
            (remove_each (minus s.channel_ids new) ref b.subscribed_channels) j ref,
        hears-remove_each (minus s.channel_ids new) ref b.subscribed_channels j ref,
        member-minus new s.channel_ids j,
        member-minus s.channel_ids new j,
      );
}

moved :
    (old new : Option ℕ) (ref : ℕ) (m : SetDict) (j : ℕ)
    → hears m j ref ≡ names old j
    → hears (if same_id old new then m else add_to new ref (remove_from old ref m)) j ref
      ≡ names new j
moved none none ref m j h = h
moved none (some n) ref m j h = ground (
  arith,
  hears-add_to (some n) ref (remove_from none ref m) j ref,
  hears-remove_from none ref m j ref,
)
moved (some o) none ref m j h = ground (
  arith,
  hears-add_to none ref (remove_from (some o) ref m) j ref,
  hears-remove_from (some o) ref m j ref,
)
moved (some o) (some n) ref m j h = ground (
  arith,
  hears-add_to (some n) ref (remove_from (some o) ref m) j ref,
  hears-remove_from (some o) ref m j ref,
)

move_subscriptions-Follows :
    (ref : ℕ) (old_user_id old_auth_id : Option ℕ) (s : Session) (b : Broker)
    → Follows b ref old_user_id old_auth_id s.channel_ids
    → Follows
        (move_subscriptions ref old_user_id old_auth_id s b)
        ref
        s.user_id
        s.auth_id
        s.channel_ids
unfolding move_subscriptions Broker.subscribe_user Broker.unsubscribe_user Broker.subscribe_auth
    Broker.unsubscribe_auth
move_subscriptions-Follows ref u a s b f = record {
  users = λ j. ground (arith, moved u s.user_id ref b.subscribed_users j (f.users j));
  auths = λ j. ground (arith, moved a s.auth_id ref b.subscribed_auths j (f.auths j));
  channels = λ j. ground (arith, f.channels j);
}

channels_maybe-Follows :
    (ref : ℕ) (db : Answers) (time : ℕ) (s : Session) (b : Broker) (u a : Option ℕ)
    → Follows b ref u a s.channel_ids
    → let (s', b') = channels_maybe ref db time s b in
      Follows b' ref u a s'.channel_ids × (s'.user_id ≡ s.user_id) × (s'.auth_id ≡ s.auth_id)
unfolding channels_maybe
channels_maybe-Follows ref db time s b u a f =
    let ids : List ℕ = elim s.user_id [ none ↦ [] | some v ↦ db.channel_ids v ] in
    if_intro {A = Session × Broker}
      (λ r.
        Follows r.1 ref u a r.0.channel_ids × (r.0.user_id ≡ s.user_id) × (r.0.auth_id ≡ s.auth_id))
      (not (same_id s.auth_id none)
        && not s.mfa_pending
        && ltb (s.channels_loaded_at + 5 * minute_us) time)
      {x = refresh_channels ref s b ids time} {y = (s, b)}
      (
        refresh_channels-Follows ref s b ids time u a f,
        unfold refresh_channels in refl,
        unfold refresh_channels in refl,
      )
      (f, refl, refl)

after_auth-Follows :
    (ref : ℕ) (old_user_id old_auth_id : Option ℕ) (db : Answers) (time : ℕ) (s : Session)
    (b : Broker)
    → Follows b ref old_user_id old_auth_id s.channel_ids
    → FollowsSession ref (after_auth ref old_user_id old_auth_id db time s b)
unfolding after_auth
after_auth-Follows ref u a db time s b f =
    let (f', _, _) = channels_maybe-Follows ref db time s b u a f in
    let (s', b') = channels_maybe ref db time s b in move_subscriptions-Follows ref u a s' b' f'

authorized-Follows :
    (ref : ℕ) (db : Answers) (time : ℕ) (s : Session) (b : Broker) (found : Option Authorization)
    → FollowsSession ref (s, b)
    → FollowsSession ref (authorized ref db time s b found)
unfolding authorized
authorized-Follows ref db time s b none f = reset_auth-Follows ref s b f
authorized-Follows ref db time s b (some auth) f =
    after_auth-Follows ref s.user_id s.auth_id db time (adopt s auth) b f

refresh_keyed-Follows :
    (ref : ℕ) (force : Bool) (db : Answers) (time : ℕ) (s : Session) (b : Broker)
    → FollowsSession ref (s, b)
    → FollowsSession ref (refresh_keyed ref force db time s b)
unfolding refresh_keyed
refresh_keyed-Follows ref force db time s b f =
    if_intro (FollowsSession ref) _
      (authorized-Follows ref db time (record s { auth_loaded_at = time }) b db.authorization f)
      (after_auth-Follows ref s.user_id s.auth_id db time s b f)

refresh_data-Follows :
    (ref : ℕ) (force : Bool) (db : Answers) (time : ℕ) (s : Session) (b : Broker) (auth : AuthData)
    → FollowsSession ref (s, b)
    → FollowsSession ref (refresh_data ref force db time s b auth)
unfolding refresh_data
refresh_data-Follows ref force db time s b auth f =
    if_intro (FollowsSession ref) _ (refresh_keyed-Follows ref force db time s b f)
      (reset_auth-Follows ref s b f)

-- An exception leaves nothing to follow.
abbrev FollowsResult : ℕ → Option (Session × Broker) → Type 0
FollowsResult ref none = Unit {0}
FollowsResult ref (some r) = FollowsSession ref r

reloaded-Follows :
    (ref : ℕ) (db : Answers) (time : ℕ) (s : Session) (b : Broker) (found : Option AuthData)
    → FollowsSession ref (s, b)
    → FollowsResult ref (reloaded ref db time s b found)
unfolding reloaded
reloaded-Follows ref db time s b none f = tt
reloaded-Follows ref db time s b (some auth) f =
    refresh_data-Follows ref true db time (record s { auth_data = some auth }) b auth f

refresh_known-Follows :
    (ref : ℕ) (force : Bool) (db : Answers) (time : ℕ) (s : Session) (b : Broker)
    (known : Option AuthData)
    → FollowsSession ref (s, b)
    → FollowsResult ref (refresh_known ref force db time s b known)
unfolding refresh_known
refresh_known-Follows ref force db time s b none f = f
refresh_known-Follows ref force db time s b (some old) f =
    if_intro (FollowsResult ref) (force && not (same_id old.auth_key_id none))
      {y = some (refresh_data ref force db time s b old)}
      (reloaded-Follows ref db time s b db.auth_data f)
      (refresh_data-Follows ref force db time s b old f)

-- If the broker knows a session exactly under its user, its authorization and its channels, it does so
-- after a refresh that returns, whatever the database answers: a login, a logout, a change of user
-- or of channels.
pub refresh_auth_maybe-Follows :
    (ref : ℕ) (force : Bool) (db : Answers) (time : ℕ) (s s' : Session) (b b' : Broker)
    → Follows b ref s.user_id s.auth_id s.channel_ids
    → refresh_auth_maybe ref force db time s b ≡ some (s', b')
    → Follows b' ref s'.user_id s'.auth_id s'.channel_ids
unfolding refresh_auth_maybe
refresh_auth_maybe-Follows ref force db time s s' b b' f e =
    subst (FollowsResult ref) e (refresh_known-Follows ref force db time s b s.auth_data f)

known_returns :
    (ref : ℕ) (force : Bool) (db : Answers) (time : ℕ) (s : Session) (b : Broker)
    (known : Option AuthData)
    → (force ≡ true → db.auth_data ≢ none)
    → (r : Session × Broker) × (refresh_known ref force db time s b known ≡ some r)
unfolding refresh_known
known_returns ref force db time s b none h = ((s, b), refl)
known_returns ref force db time s b (some old) h =
    elim (Bool-cases (force && not (same_id old.auth_key_id none))) [
      | inl go ↦ elim (Option-cases db.auth_data) [
        | inl gone ↦ absurd (h (ground arith) gone)
        | inr (auth, e) ↦ (
          refresh_data ref true db time (record s { auth_data = some auth }) b auth,
          rw (go, e) (unfold reloaded in refl),
        )
      ]
      | inr stay ↦ (refresh_data ref force db time s b old, rw stay)
    ]

-- A refresh returns unless it is forced on a known key whose data are gone from the database.
pub refresh_auth_maybe_returns :
    (ref : ℕ) (force : Bool) (db : Answers) (time : ℕ) (s : Session) (b : Broker)
    → (force ≡ true → db.auth_data ≢ none)
    → (r : Session × Broker) × (refresh_auth_maybe ref force db time s b ≡ some r)
unfolding refresh_auth_maybe
refresh_auth_maybe_returns ref force db time s b h =
    known_returns ref force db time s b s.auth_data h
