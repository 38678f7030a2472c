-- ===== src/Stars.antt =====
-- piltover/app/utils/stars_manager.py: credits, debits and transfers of stars. A row of
-- `UserStarsBalance` is an entry of a dict; `StarsTransaction` keeps who, how much and which way.
pub mod Ledger
pub mod Payments
use piltover.Base.{
  Bool, Dict, List, Option, false, get, if◌then◌else◌, inl, inr, ltb, none, put, some, true, ℕ, ◌*◌,
  ◌+◌, ◌-◌, ◌/◌, ◌==◌, ◌||◌, ◌∷◌, ◌⊎◌,
}
use piltover.Base.Ints.{ℤ, pos, negsuc}

pub record Transaction : Type 0 where
  pub user_id : ℕ
  pub stars_amount : ℕ
  pub inbound : Bool

pub record Bank : Type 0 where
  pub balances : Dict ℕ
  pub transactions : List Transaction

-- The two messages of `ErrorRpc`
pub data StarsError : Type 0 where
  stars_amount_invalid : StarsError
  balance_too_low : StarsError

-- The amount of a row; a missing one is made with 0.
abbrev amount_or_zero : Option ℕ → ℕ
amount_or_zero none = 0
amount_or_zero (some amount) = amount

abbrev pub balance_of : Bank → ℕ → ℕ
balance_of b user_id = amount_or_zero (get user_id b.balances)

-- `balance.amount = …`, `save`, and the new row of `StarsTransaction`, the last one first
unfoldable pub book : ℕ → ℕ → ℕ → Bool → Bank → Bank
book user_id amount stars inbound b = record {
  balances = put user_id amount b.balances;
  transactions =
      record { user_id = user_id; stars_amount = stars; inbound = inbound } ∷ b.transactions;
}

-- `_credit_stars`
unfoldable pub credit_stars : Bank → ℕ → ℕ → Bool → Bank
unfolding book
credit_stars b wallet_user_id stars inbound =
    book wallet_user_id (balance_of b wallet_user_id + stars) stars inbound b

-- `balance is None or balance.amount < stars`
abbrev pub too_low : Option ℕ → ℕ → Bool
too_low none stars = true
too_low (some amount) stars = ltb amount stars

-- `_debit_stars`
unfoldable pub debit_stars : Bank → ℕ → ℤ → StarsError ⊎ Bank
unfolding book
debit_stars b wallet_user_id (negsuc _) = inl stars_amount_invalid
debit_stars b wallet_user_id (pos stars) =
    if stars == 0
    then inl stars_amount_invalid
    else if too_low (get wallet_user_id b.balances) stars
    then inl balance_too_low
    else inr (book wallet_user_id (balance_of b wallet_user_id - stars) stars false b)

-- The end of `_transfer_stars`: both rows are read before either is written.
unfoldable pub move_stars : Bank → ℕ → ℕ → ℕ → ℕ → Bank
unfolding book
move_stars b from_user_id to_user_id stars credited =
    let payer = balance_of b from_user_id - stars in
    let recipient = balance_of b to_user_id + credited in
    book to_user_id recipient credited true (book from_user_id payer stars false b)

-- `_transfer_stars` of positive amounts
unfoldable pub transfer_checked : Bank → ℕ → ℕ → ℕ → ℕ → StarsError ⊎ Bank
unfolding move_stars
transfer_checked b from_user_id to_user_id stars credited =
    if credited == 0 || ltb stars credited
    then inl stars_amount_invalid
    else if too_low (get from_user_id b.balances) stars
    then inl balance_too_low
    else inr (move_stars b from_user_id to_user_id stars credited)

abbrev pub credited_of : ℕ → Option ℤ → ℕ
credited_of stars none = stars
credited_of stars (some (pos n)) = n
credited_of stars (some (negsuc _)) = 0

unfoldable pub transfer_stars : Bank → ℕ → ℕ → ℤ → Option ℤ → StarsError ⊎ Bank
unfolding transfer_checked
transfer_stars b from_user_id to_user_id (negsuc _) recipient_stars = inl stars_amount_invalid
transfer_stars b from_user_id to_user_id (pos stars) recipient_stars =
    if stars == 0
    then inl stars_amount_invalid
    else transfer_checked b from_user_id to_user_id stars (credited_of stars recipient_stars)

-- `set_stars_balance`; the early return keeps the row that it may have made.
unfoldable set_stars_balance : Bank → ℕ → ℤ → StarsError ⊎ Bank
unfolding book
set_stars_balance b user_id (negsuc _) = inl stars_amount_invalid
set_stars_balance b user_id (pos amount) =
    let current = balance_of b user_id in
    if current == amount
    then inr (record b { balances = put user_id current b.balances })
    else if ltb current amount
    then inr (book user_id amount (amount - current) true b)
    else inr (book user_id amount (current - amount) false b)

-- `STARS_USD_SELL_RATE_X1000` and `STARS_USD_WITHDRAW_RATE_X1000`
abbrev pub sell_rate : ℕ
sell_rate = 1410

abbrev pub withdraw_rate : ℕ
withdraw_rate = 1300

-- `bot_net_stars`: what a bot gets of a payment
unfoldable pub bot_net_stars : ℤ → ℕ
bot_net_stars (pos gross) = gross * withdraw_rate / sell_rate
bot_net_stars (negsuc _) = 0

-- `grant_stars`
unfoldable grant_stars : Bank → ℕ → ℕ → Bank
unfolding credit_stars
grant_stars b user_id stars = credit_stars b user_id stars true

-- `spend_stars`
unfoldable spend_stars : Bank → ℕ → ℤ → StarsError ⊎ Bank
unfolding debit_stars
spend_stars = debit_stars
