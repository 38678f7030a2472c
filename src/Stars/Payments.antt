-- ===== src/Stars/Payments.antt =====
-- stars_manager.py: what a transfer does to the balances.
use piltover.Base.{
  ==→eq, Bool-cases, Option-cases, ap, arith, get, get-put, if◌then◌else◌, inl, inr, ltb, none, put,
  some, ℕ, ◌*◌, ◌+◌, ◌-◌, ◌/◌, ◌<◌, ◌==◌, ◌≡◌, ◌≢◌, ◌≤◌,
}
use piltover.Base.Ints.{pos}
use piltover.Stars.{
  bot_net_stars, sell_rate, withdraw_rate, Bank, balance_too_low, book, balance_of, too_low,
  move_stars, transfer_checked, transfer_stars,
}

too_low_lem :
    (b : Bank) (u stars : ℕ)
    → 0 < stars
    → too_low (get u b.balances) stars ≡ ltb (balance_of b u) stars
too_low_lem b u stars h = elim (Option-cases (get u b.balances)) [
  | inl e ↦ ground arith
  | inr (n, e) ↦ ground arith
]

moved :
    (b : Bank) (payer recipient stars credited u : ℕ)
    → balance_of (move_stars b payer recipient stars credited) u ≡ (
        if recipient == u
        then balance_of b recipient + credited
        else if payer == u
        then balance_of b payer - stars
        else balance_of b u)
unfolding move_stars book
moved b payer recipient stars credited u = ground (
  arith,
  get-put recipient u (balance_of b recipient + credited)
      (put payer (balance_of b payer - stars) b.balances),
  get-put payer u (balance_of b payer - stars) b.balances,
)

-- A transfer of no more than the payer has, to another user and with the whole amount credited, takes
-- it from the payer, gives it to the recipient, and leaves every other balance as it was.
pub transfer_stars_moves :
    (b : Bank) (payer recipient stars u : ℕ)
    → payer ≢ recipient
    → 0 < stars
    → stars ≤ balance_of b payer
    → (b' : Bank) × (transfer_stars b payer recipient (pos stars) none ≡ inr b')
      × (balance_of b' u + (if payer == u then stars else 0)
          ≡ balance_of b u + (if recipient == u then stars else 0))
unfolding transfer_stars transfer_checked
transfer_stars_moves b payer recipient stars u apart some_stars le = (
  move_stars b payer recipient stars stars,
  ground (arith, too_low_lem b payer stars some_stars),
  elim (Bool-cases (recipient == u)) [
    | inl e ↦
        let same : balance_of b recipient ≡ balance_of b u =
          ap (balance_of b) (==→eq recipient u e) in
        ground (arith, moved b payer recipient stars stars u, same)
    | inr e ↦ elim (Bool-cases (payer == u)) [
      | inl f ↦
          let same : balance_of b payer ≡ balance_of b u = ap (balance_of b) (==→eq payer u f) in
          ground (arith, moved b payer recipient stars stars u, same)
      | inr f ↦ ground (arith, moved b payer recipient stars stars u)
    ]
  ],
)

-- A transfer of more than the payer has is refused with `BALANCE_TOO_LOW`.
transfer_stars_refused :
    (b : Bank) (payer recipient stars : ℕ)
    → balance_of b payer < stars
    → transfer_stars b payer recipient (pos stars) none ≡ inl balance_too_low
unfolding transfer_stars transfer_checked
transfer_stars_refused b payer recipient stars low = ground (arith, too_low_lem b payer stars)

-- A transfer of a user to themselves, of no more than they have, adds the amount to their balance.
pub transfer_stars_to_self :
    (b : Bank) (user_id stars : ℕ)
    → 0 < stars
    → stars ≤ balance_of b user_id
    → (b' : Bank) × (transfer_stars b user_id user_id (pos stars) none ≡ inr b')
      × (balance_of b' user_id ≡ balance_of b user_id + stars)
unfolding transfer_stars transfer_checked
transfer_stars_to_self b u stars some_stars le = (
  move_stars b u u stars stars,
  ground (arith, too_low_lem b u stars some_stars),
  ground (arith, moved b u u stars stars u),
)

-- A payment of at least two stars that the payer has is not refused for what the bot gets of it: that is
-- at least one star and no more than was paid.
pub bot_payment_passes :
    (b : Bank) (payer bot stars : ℕ)
    → 1 < stars
    → stars ≤ balance_of b payer
    → (b' : Bank) × (transfer_stars b payer bot (pos stars) (some (pos (bot_net_stars (pos stars))))
        ≡ inr b')
unfolding transfer_stars transfer_checked bot_net_stars
bot_payment_passes b payer bot stars two le =
    let net = stars * withdraw_rate / sell_rate in
    let least : 0 < net = omega arith in
    let most : net ≤ stars = omega arith in
    let positive : 0 < stars = omega arith in
    let pays = too_low_lem b payer stars positive in
    (move_stars b payer bot stars net, ground (arith, least, most, pays))
