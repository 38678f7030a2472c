-- ===== src/SpamBlock.antt =====
-- piltover/app/utils/spam_block.py: to whom a user who is blocked for spam may still write.
use piltover.Base.{
  Bool, Option, arith, false, if◌then◌else◌, inl, inr, none, not, some, true, ℕ, ◌==◌, ◌||◌, ◌≡◌,
  ◌⊎◌,
}

-- `bot`, the attribute `spam_blocked` if it was loaded, and the column of the database if the user is
-- there
pub record User : Type 0 where
  pub id : ℕ
  pub bot : Bool
  pub spam_blocked : Option Bool
  pub stored_spam_blocked : Option Bool

pub record Participant : Type 0 where
  pub is_admin : Bool

-- `Peer`, by its `type`, with the fields that are read of each.
pub data Peer : Type 0 where
  self : Peer
  user : (user_id : ℕ) (bot : Bool) → Peer
  chat : (creator_id : ℕ) (participant : Option Participant) → Peer
  channel : (creator_id : ℕ) (participant : Option Participant) → Peer

-- What the database answers: whether there is a message of the second user in a dialog of the two,
-- whether there is a call from the first to the second, and the author of a message of the peer.
pub record Records : Type 0 where
  pub message_from : ℕ → ℕ → Bool
  pub call : ℕ → ℕ → Bool
  pub author : ℕ → Option ℕ

pub data SpamError : Type 0 where
  user_restricted : SpamError
  peer_flood : SpamError

abbrev or_false : Option Bool → Bool
or_false none = false
or_false (some b) = b

unfoldable pub user_spam_blocked : User → Bool
user_spam_blocked u = elim u.spam_blocked [ some b ↦ b | none ↦ or_false u.stored_spam_blocked ]

abbrev pub trusted : ℕ → ℕ → Option Participant → Bool
trusted creator_id user_id none = false
trusted creator_id user_id (some p) = creator_id == user_id || p.is_admin

-- `_peer_allows_spam_blocked_send`
unfoldable peer_allows : Peer → ℕ → Bool
peer_allows self user_id = false
peer_allows (user _ _) user_id = false
peer_allows (chat creator_id p) user_id = trusted creator_id user_id p
peer_allows (channel creator_id p) user_id = trusted creator_id user_id p

unfoldable peer_has_incoming_contact : Records → Peer → ℕ → Bool
peer_has_incoming_contact db self user_id = false
peer_has_incoming_contact db (user other_id _) user_id =
    db.message_from user_id other_id || db.call other_id user_id
peer_has_incoming_contact db (chat _ _) user_id = false
peer_has_incoming_contact db (channel _ _) user_id = false

abbrev is_other : Option ℕ → ℕ → Bool
is_other none user_id = false
is_other (some author_id) user_id = not (author_id == user_id)

-- `reply_to_message_id is not None and await _reply_to_incoming_message(…)`
unfoldable replies_to_incoming : Records → ℕ → Option ℕ → Bool
replies_to_incoming db user_id none = false
replies_to_incoming db user_id (some id) = is_other (db.author id) user_id

abbrev is_bot_peer : Peer → Bool
is_bot_peer (user _ bot) = bot
is_bot_peer _ = false

unfoldable may_write : Records → User → Peer → Option ℕ → Bool
unfolding peer_allows peer_has_incoming_contact replies_to_incoming
may_write db u peer reply_to =
    if is_bot_peer peer
    then true
    else if peer_has_incoming_contact db peer u.id
    then true
    else if peer_allows peer u.id
    then true
    else replies_to_incoming db u.id reply_to

unfoldable pub check_spam_blocked_creation : User → Option SpamError
unfolding user_spam_blocked
check_spam_blocked_creation u =
    if u.bot || not (user_spam_blocked u) then none else some user_restricted

-- `check_user_spam_blocked`; `none` lets the message pass.
unfoldable pub check_user_spam_blocked : Records → User → Option Peer → Option ℕ → Option SpamError
unfolding user_spam_blocked may_write
check_user_spam_blocked db u none reply_to =
    if u.bot || not (user_spam_blocked u) then none else some peer_flood
check_user_spam_blocked db u (some peer) reply_to =
    if u.bot || not (user_spam_blocked u)
    then none
    else if may_write db u peer reply_to
    then none
    else some peer_flood

-- A user who may create chats may write to everyone, and one who may write to a peer may also answer a
-- message there.
pub reply_only_helps :
    (db : Records) (u : User) (peer : Option Peer) (reply_to : Option ℕ)
    → check_spam_blocked_creation u ≡ none ⊎ (check_user_spam_blocked db u peer none ≡ none)
    → check_user_spam_blocked db u peer reply_to ≡ none
unfolding check_spam_blocked_creation check_user_spam_blocked may_write replies_to_incoming
reply_only_helps db u none reply_to (inl h) = ground arith
reply_only_helps db u none reply_to (inr h) = ground arith
reply_only_helps db u (some peer) reply_to (inl h) = ground arith
reply_only_helps db u (some peer) reply_to (inr h) = ground arith
