-- ===== src/Manager/Send.antt =====
-- session_manager.py: `send` chooses the form of the message for the broker; `send_internal_push`,
-- `subscribe_to_channel` and `unsubscribe_from_channel` send the others.
use piltover.Base.{
  Bool, Bool-cases, List, Option, [], arith, false, if◌then◌else◌, inl, inr, member, none, refl,
  some, true, ℕ, ◌&&◌, ◌==◌, ◌||◌, ◌∷◌, ◌≡◌,
}
use piltover.Broker.{Broker}
use piltover.Broker.Routing.Targets.{
  Addressees, AddresseesShort, widen, ids_of, singleton, hears_any, without, collect_send_to,
  member-collect_send_to,
}

-- An argument `int | list[int]`
pub data Ids : Type 0 where
  one : ℕ → Ids
  many : List ℕ → Ids

-- `not x` of an optional argument
abbrev is_falsy : Option Ids → Bool
is_falsy none = true
is_falsy (some (one n)) = n == 0
is_falsy (some (many [])) = true
is_falsy (some (many (_ ∷ _))) = false

-- A list of one element becomes the element.
abbrev shorten : Option Ids → Option Ids
shorten (some (many (n ∷ []))) = some (one n)
shorten x = x

-- `x is None or isinstance(x, int)`
abbrev is_single : Option Ids → Bool
is_single (some (many _)) = false
is_single _ = true

abbrev as_single : Option Ids → Option ℕ
as_single (some (one n)) = some n
as_single _ = none

abbrev as_list : Option Ids → Option (List ℕ)
as_list none = none
as_list (some (one n)) = some (n ∷ [])
as_list (some (many ns)) = some ns

pub data Message : Type 0 where
  to_users : Addressees → Message
  to_users_short : AddresseesShort → Message

-- The five arguments of `send` that name sessions.
pub record Targets : Type 0 where
  pub user_id : Option Ids
  pub key_id : Option Ids
  pub channel_id : Option Ids
  pub auth_id : Option Ids
  pub ignore_auth_id : Option Ids

abbrev shorten_all : Targets → Targets
shorten_all t = record {
  user_id = shorten t.user_id;
  key_id = shorten t.key_id;
  channel_id = shorten t.channel_id;
  auth_id = shorten t.auth_id;
  ignore_auth_id = shorten t.ignore_auth_id;
}

unfoldable is_short : Targets → Bool
is_short t =
    is_single t.user_id
    && is_single t.key_id
    && is_single t.channel_id
    && is_single t.auth_id
    && is_single t.ignore_auth_id

unfoldable make_message : Targets → Message
unfolding is_short
make_message t =
    if is_short t
    then to_users_short (record {
      user = as_single t.user_id;
      key_id = as_single t.key_id;
      channel_id = as_single t.channel_id;
      auth_id = as_single t.auth_id;
      ignore_auth_id = as_single t.ignore_auth_id;
    })
    else to_users (record {
      users = as_list t.user_id;
      key_ids = as_list t.key_id;
      channel_ids = as_list t.channel_id;
      auth_ids = as_list t.auth_id;
      ignore_auth_id = as_list t.ignore_auth_id;
    })

-- `send`; `none` sends nothing. The object is no part of the choice.
unfoldable pub send : Targets → Option Message
unfolding make_message
send t =
    if is_falsy t.user_id && is_falsy t.key_id && is_falsy t.channel_id && is_falsy t.auth_id
    then none
    else some (make_message (shorten_all t))

pub data InternalPush : Type 0 where
  for_users : List ℕ → InternalPush
  for_user : ℕ → InternalPush

unfoldable push_message : Option Ids → Option InternalPush
push_message none = none
push_message (some (one n)) = some (for_user n)
push_message (some (many ns)) = some (for_users ns)

unfoldable send_internal_push : Ids → Option InternalPush
unfolding push_message
send_internal_push user_id =
    if is_falsy (some user_id) then none else push_message (shorten (some user_id))

pub record ChannelSubscribe : Type 0 where
  pub channel_ids : List ℕ
  pub user_ids : List ℕ
  pub subscribe : Bool

-- `subscribe_to_channel` and `unsubscribe_from_channel`
unfoldable channel_message : Bool → ℕ → List ℕ → Option ChannelSubscribe
channel_message subscribe channel_id [] = none
channel_message subscribe channel_id (u ∷ us) =
    if channel_id == 0
    then none
    else some (record { channel_ids = channel_id ∷ []; user_ids = u ∷ us; subscribe = subscribe })

-- How the broker reads the two forms.
abbrev pub read_message : Message → Addressees
read_message (to_users m) = m
read_message (to_users_short m) = widen m

-- The ids that an argument names.
abbrev named : Option Ids → List ℕ
named none = []
named (some (one n)) = n ∷ []
named (some (many ns)) = ns

named-as_list : (x : Option Ids) → ids_of (as_list (shorten x)) ≡ named x
named-as_list none = refl
named-as_list (some (one n)) = refl
named-as_list (some (many [])) = refl
named-as_list (some (many (n ∷ []))) = refl
named-as_list (some (many (n ∷ k ∷ ns))) = refl

singleton-as_single : (x : Option Ids) → is_single x ≡ true → singleton (as_single x) ≡ as_list x
singleton-as_single none h = refl
singleton-as_single (some (one n)) h = refl
singleton-as_single (some (many ns)) h = cc

-- The form of the message does not matter.
read-make_message :
    (t : Targets)
    → read_message (make_message t) ≡ record {
      users = as_list t.user_id;
      key_ids = as_list t.key_id;
      channel_ids = as_list t.channel_id;
      auth_ids = as_list t.auth_id;
      ignore_auth_id = as_list t.ignore_auth_id;
    }
unfolding make_message is_short widen
read-make_message t = elim (Bool-cases (is_short t)) [
  | inl e ↦ rw e (
      rw (
        singleton-as_single t.user_id (ground arith),
        singleton-as_single t.key_id (ground arith),
        singleton-as_single t.channel_id (ground arith),
        singleton-as_single t.auth_id (ground arith),
        singleton-as_single t.ignore_auth_id (ground arith),
      ))
  | inr e ↦ rw e
]

-- A message that is sent is meant, for the broker, exactly for the sessions that are known under the
-- users, keys, channels and not ignored authorizations that the arguments name, whichever of the two
-- forms it has.
pub send_reaches :
    (b : Broker) (t : Targets) (m : Message) (ref : ℕ)
    → send t ≡ some m
    → member ref (collect_send_to b (read_message m)) ≡ (
        hears_any b.subscribed_users (named t.user_id) ref
        || (hears_any b.subscribed_keys (named t.key_id) ref
            || (hears_any b.subscribed_channels (named t.channel_id) ref
                || hears_any b.subscribed_auths
                    (without (named t.ignore_auth_id) (named t.auth_id))
                    ref)))
unfolding send
send_reaches b t m ref h =
    let eq : make_message (shorten_all t) ≡ m = ground arith in
    rw (
      ← eq,
      read-make_message (shorten_all t),
      member-collect_send_to,
      named-as_list t.user_id,
      named-as_list t.key_id,
      named-as_list t.channel_id,
      named-as_list t.auth_id,
      named-as_list t.ignore_auth_id,
    )
