-- ===== src/Chat.antt =====
-- piltover/db/models/chat_base.py: who may do what in a group or a channel. Rights are the bits of a
-- number, as in the `IntFlag` classes of piltover/db/enums.py.
pub mod Rights
pub mod Update
pub mod Versions
use Prim.Native.Nat.{bit_and, bit_or}
use piltover.Base.{
  Bool, Option, false, if◌then◌else◌, ltb, none, not, some, true, ℕ, ◌&&◌, ◌==◌, ◌^◌, ◌||◌,
}

-- `ChatParticipant`, as far as rights go
pub record Participant : Type 0 where
  pub user_id : ℕ
  pub admin_rights : ℕ
  pub banned_rights : ℕ
  pub left : Bool

-- The two subclasses of `ChatBase`, the second with the fields that are read.
pub data Kind : Type 0 where
  chat : Kind
  channel : (is_channel is_discussion join_to_send nojoin_allow_view : Bool) → Kind

pub record ChatBase : Type 0 where
  pub kind : Kind
  pub creator_id : ℕ
  pub banned_rights : ℕ

abbrev is_chat : Kind → Bool
is_chat chat = true
is_chat (channel _ _ _ _) = false

-- `isinstance(self, models.Channel) and self.channel`
abbrev pub is_broadcast : Kind → Bool
is_broadcast chat = false
is_broadcast (channel c _ _ _) = c

abbrev allows_view : Kind → Bool
allows_view chat = false
allows_view (channel _ _ _ v) = v

-- `self.is_discussion and self.join_to_send` of a channel
abbrev must_join : Kind → Bool
must_join chat = false
must_join (channel _ d j _) = d && j

-- `ChatBannedRights` and `ChatAdminRights`, those that the checks use
abbrev view_messages : ℕ
view_messages = 1

abbrev pub send_messages : ℕ
send_messages = 2

abbrev send_media : ℕ
send_media = 4

abbrev banned_pin_messages : ℕ
banned_pin_messages = 2 ^ 17

abbrev send_plain : ℕ
send_plain = 2 ^ 25

abbrev pub post_messages : ℕ
post_messages = 2

abbrev edit_messages : ℕ
edit_messages = 4

abbrev pin_messages : ℕ
pin_messages = 2 ^ 7

unfoldable pub is_admin : Participant → Bool
is_admin p = ltb 0 p.admin_rights

-- `(rights & asked) == asked`
unfoldable pub has_all : ℕ → ℕ → Bool
has_all rights asked = bit_and rights asked == asked

-- `(rights & asked) > 0`
unfoldable has_any : ℕ → ℕ → Bool
has_any rights asked = ltb 0 (bit_and rights asked)

unfoldable pub check_member : ChatBase → Participant → ℕ → ℕ → Bool
unfolding is_admin has_all has_any
check_member c p admin regular =
    let admin_has_permission = has_all p.admin_rights admin in
    if c.creator_id == p.user_id
    then true
    else if is_broadcast c.kind && ltb 0 admin
    then is_admin p && admin_has_permission
    else if has_any p.banned_rights regular
    then false
    else admin_has_permission || not (has_any c.banned_rights regular)

unfoldable pub check_rights : ChatBase → Option Participant → ℕ → ℕ → Bool
unfolding check_member
check_rights c none admin regular = not (has_any c.banned_rights regular)
check_rights c (some p) admin regular = check_member c p admin regular

-- `participant is None or participant.left`
abbrev pub is_away : Option Participant → Bool
is_away none = true
is_away (some p) = p.left

unfoldable pub can_view_messages : ChatBase → Option Participant → Bool
unfolding check_rights
can_view_messages c p =
    if is_away p
    then (if is_chat c.kind then false else allows_view c.kind)
    else check_rights c p 0 view_messages

abbrev is_none : Option Participant → Bool
is_none none = true
is_none (some _) = false

unfoldable pub check_can_send : ChatBase → Option Participant → Bool
unfolding can_view_messages
check_can_send c p =
    if not (can_view_messages c p)
    then false
    else if is_chat c.kind && is_none p
    then false
    else if is_none p && must_join c.kind
    then allows_view c.kind
    else true

unfoldable pub can_send_messages : ChatBase → Option Participant → Bool
unfolding check_can_send
can_send_messages c p =
    if not (check_can_send c p) then false else check_rights c p post_messages send_messages

unfoldable pub can_send_plain : ChatBase → Option Participant → Bool
unfolding can_send_messages
can_send_plain c p =
    if not (can_send_messages c p) then false else check_rights c p post_messages send_plain

unfoldable pub can_edit_messages : ChatBase → Option Participant → Bool
unfolding check_can_send
can_edit_messages c p =
    if not (check_can_send c p) then false else check_rights c p edit_messages send_messages

unfoldable pub can_send_media : ChatBase → Option Participant → ℕ → Bool
unfolding can_send_messages
can_send_media c p media_type =
    if not (can_send_messages c p)
    then false
    else check_rights c p post_messages (bit_or send_media media_type)

unfoldable can_pin_messages : ChatBase → Participant → Bool
unfolding check_rights
can_pin_messages c p = check_rights c (some p) pin_messages banned_pin_messages

-- `user_has_permission`; `none` is the `AttributeError` of `participant.user_id` on `None`.
unfoldable user_has_permission : ChatBase → Option Participant → ℕ → Option Bool
user_has_permission c none permission =
    if is_broadcast c.kind then none else some (bit_and c.banned_rights permission == 0)
user_has_permission c (some p) permission =
    let trusted = is_admin p || c.creator_id == p.user_id in
    if is_broadcast c.kind && not trusted
    then some false
    else if trusted
    then some true
    else if p.banned_rights == 0
    then some (bit_and c.banned_rights permission == 0)
    else some (bit_and p.banned_rights permission == 0)

unfoldable admin_has_permission : ChatBase → Participant → ℕ → Bool
unfolding has_all
admin_has_permission c p permission = c.creator_id == p.user_id || has_all p.admin_rights permission
