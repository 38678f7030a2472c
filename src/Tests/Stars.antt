-- ===== src/Tests/Stars.antt =====
-- Concrete inputs for the theorems on stars_manager.py.
use piltover.Base.{[], arith, false, inr, none, refl, some, true, ◌+◌, ◌∷◌, ◌≡◌}
use piltover.Base.Ints.{pos}
use piltover.Stars.{
  bot_net_stars, Bank, transfer_stars, transfer_checked, move_stars, book, balance_of,
}
use piltover.Stars.Ledger.{IsBalanced, transfer_stars-IsBalanced}
use piltover.Stars.Payments.{bot_payment_passes, transfer_stars_moves, transfer_stars_to_self}

-- User 1 was given 50 stars.
abbrev bank : Bank
bank = record {
  balances = (1, 50) ∷ [];
  transactions = record { user_id = 1; stars_amount = 50; inbound = true } ∷ [];
}

bank-IsBalanced : IsBalanced bank
bank-IsBalanced = record { even = λ u. ground arith }

-- They give 30 of them to user 2, who gets 20.
abbrev after : Bank
after = record {
  balances = (1, 20) ∷ (2, 20) ∷ [];
  transactions =
      record { user_id = 2; stars_amount = 20; inbound = true }
      ∷ record { user_id = 1; stars_amount = 30; inbound = false }
      ∷ record { user_id = 1; stars_amount = 50; inbound = true }
      ∷ [];
}

transfer_stars-IsBalanced_example : IsBalanced after
unfolding transfer_stars transfer_checked move_stars book
transfer_stars-IsBalanced_example =
    transfer_stars-IsBalanced bank after 1 2 (pos 30) (some (pos 20)) (λ e. absurd (omega arith))
      bank-IsBalanced refl

transfer_stars_moves_example :
    (b' : Bank) × (transfer_stars bank 1 2 (pos 30) none ≡ inr b')
    × (balance_of b' 1 + 30 ≡ balance_of bank 1 + 0)
transfer_stars_moves_example =
    transfer_stars_moves bank 1 2 30 1 (λ e. absurd (omega arith)) (omega arith) (omega arith)

transfer_stars_to_self_example :
    (b' : Bank) × (transfer_stars bank 1 1 (pos 30) none ≡ inr b')
    × (balance_of b' 1 ≡ balance_of bank 1 + 30)
transfer_stars_to_self_example = transfer_stars_to_self bank 1 30 (omega arith) (omega arith)

bot_payment_passes_example :
    (b' : Bank) × (transfer_stars bank 1 9 (pos 30) (some (pos (bot_net_stars (pos 30)))) ≡ inr b')
bot_payment_passes_example = bot_payment_passes bank 1 9 30 (omega arith) (omega arith)
