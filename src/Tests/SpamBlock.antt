-- ===== src/Tests/SpamBlock.antt =====
-- A concrete input for the theorem on spam_block.py.
use piltover.Base.{false, inr, none, refl, some, true, ◌≡◌}
use piltover.SpamBlock.{User, Peer, chat, Records, check_user_spam_blocked, reply_only_helps}

-- A blocked user, in a group that they made.
abbrev blocked : User
blocked = record { id = 3; bot = false; spam_blocked = none; stored_spam_blocked = some true }

abbrev own_group : Peer
own_group = chat 3 (some (record { is_admin = false }))

abbrev records : Records
records = record { message_from = λ a b. false; call = λ a b. false; author = λ id. none }

reply_only_helps_example : check_user_spam_blocked records blocked (some own_group) (some 8) ≡ none
unfolding check_user_spam_blocked
reply_only_helps_example = reply_only_helps records blocked (some own_group) (some 8) (inr refl)
