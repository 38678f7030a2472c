-- ===== src/Chat/Rights.antt =====
-- chat_base.py: the rules that the checks follow.
use piltover.Base.{Option, arith, false, some, true, ℕ, ◌&&◌, ◌==◌, ◌≡◌}
use piltover.Chat.{
  Participant, chat, ChatBase, is_broadcast, is_admin, has_all, check_member, check_rights, is_away,
  can_view_messages, check_can_send, can_send_messages, can_send_plain, can_edit_messages,
  can_send_media, post_messages,
}

-- The creator who has not left may view, send, send plain text and media of any kind, and edit.
creator_may :
    (c : ChatBase) (p : Participant) (media_type : ℕ)
    → c.creator_id ≡ p.user_id
    → p.left ≡ false
    → (can_view_messages c (some p) ≡ true)
      × (can_send_messages c (some p) ≡ true)
      × (can_send_plain c (some p) ≡ true)
      × (can_send_media c (some p) media_type ≡ true)
      × (can_edit_messages c (some p) ≡ true)
unfolding can_view_messages can_send_messages can_send_plain can_send_media can_edit_messages
creator_may c p media_type e here = ground arith

-- Who is not in a group, or has left it, can neither see nor send anything there.
outsider_may_not :
    (c : ChatBase) (p : Option Participant) (media_type : ℕ)
    → c.kind ≡ chat
    → is_away p ≡ true
    → (can_view_messages c p ≡ false)
      × (can_send_messages c p ≡ false)
      × (can_send_plain c p ≡ false)
      × (can_send_media c p media_type ≡ false)
      × (can_edit_messages c p ≡ false)
unfolding can_view_messages can_send_messages can_send_plain can_send_media can_edit_messages
outsider_may_not c p media_type e away = ground arith

-- In a broadcast channel a member who is not the creator can send messages exactly if they are an
-- administrator with the right to post, and may see the channel.
broadcast_send_iff :
    (c : ChatBase) (p : Participant)
    → is_broadcast c.kind ≡ true
    → (c.creator_id == p.user_id) ≡ false
    → can_send_messages c (some p)
      ≡ (can_view_messages c (some p) && (is_admin p && has_all p.admin_rights post_messages))
unfolding can_send_messages check_can_send check_rights check_member
broadcast_send_iff c p e other = ground arith
