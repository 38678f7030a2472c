-- ===== src/Stars/Ledger.antt =====
-- stars_manager.py: every balance is what the transactions of its user add up to.
use piltover.Base.{
  ==→eq, Bool, Bool-cases, List, Option, Option-cases, [], ap, arith, false, get, get-put, if_intro,
  if◌then◌else◌, inl, inr, ltb, not, subst, true, ℕ, ◌&&◌, ◌+◌, ◌-◌, ◌==◌, ◌||◌, ◌∷◌, ◌≡◌, ◌≢◌, ◌≤◌,
  ◌⊎◌,
}
use piltover.Base.Ints.{ℤ, pos, negsuc}
use piltover.Stars.{
  stars_amount_invalid, Transaction, Bank, StarsError, book, balance_of, too_low, credit_stars,
  debit_stars, move_stars, transfer_checked, transfer_stars, credited_of,
}

-- What came in and what went out.
abbrev received : ℕ → List Transaction → ℕ
received user_id [] = 0
received user_id (t ∷ ts) =
    (if t.user_id == user_id && t.inbound then t.stars_amount else 0) + received user_id ts

abbrev paid : ℕ → List Transaction → ℕ
paid user_id [] = 0
paid user_id (t ∷ ts) =
    (if t.user_id == user_id && not t.inbound then t.stars_amount else 0) + paid user_id ts

-- The balance of each user is what they received less what they paid.
pub record IsBalanced (b : Bank) : Type 0 where
  pub even : (u : ℕ) → balance_of b u + paid u b.transactions ≡ received u b.transactions

balance_of-book :
    (b : Bank) (u amount stars : ℕ) (inbound : Bool) (v : ℕ)
    → balance_of (book u amount stars inbound b) v ≡ (if u == v then amount else balance_of b v)
unfolding book
balance_of-book b u amount stars inbound v = ground (arith, get-put u v amount b.balances)

same_balance : (b : Bank) (u v : ℕ) → (u == v) ≡ true → balance_of b u ≡ balance_of b v
same_balance b u v e = ap (balance_of b) (==→eq u v e)

book-in :
    (b : Bank) (u stars : ℕ)
    → IsBalanced b
    → IsBalanced (book u (balance_of b u + stars) stars true b)
unfolding book
book-in b u stars h = record {
  even = λ v. elim (Bool-cases (u == v)) [
    | inl e ↦ ground (
      arith,
      h.even v,
      same_balance b u v e,
      balance_of-book b u (balance_of b u + stars) stars true v,
    )
    | inr e ↦ ground (arith, h.even v, balance_of-book b u (balance_of b u + stars) stars true v)
  ];
}

book-out :
    (b : Bank) (u stars : ℕ)
    → stars ≤ balance_of b u
    → IsBalanced b
    → IsBalanced (book u (balance_of b u - stars) stars false b)
unfolding book
book-out b u stars le h = record {
  even = λ v. elim (Bool-cases (u == v)) [
    | inl e ↦ ground (
      arith,
      h.even v,
      same_balance b u v e,
      balance_of-book b u (balance_of b u - stars) stars false v,
    )
    | inr e ↦ ground (arith, h.even v, balance_of-book b u (balance_of b u - stars) stars false v)
  ];
}

-- What a booking promises; a refusal promises nothing.
abbrev IsSound : StarsError ⊎ Bank → Type 0
IsSound (inl _) = Unit {0}
IsSound (inr b) = IsBalanced b

enough :
    (b : Bank) (u stars : ℕ) → too_low (get u b.balances) stars ≡ false → stars ≤ balance_of b u
enough b u stars h = elim (Option-cases (get u b.balances)) [
  | inl e ↦ ground arith
  | inr (n, e) ↦ ground arith
]

-- A credit keeps every balance equal to what its user received less what they paid.
credit_stars-IsBalanced :
    (b : Bank) (user_id stars : ℕ) → IsBalanced b → IsBalanced (credit_stars b user_id stars true)
unfolding credit_stars
credit_stars-IsBalanced b u stars h = book-in b u stars h

debit-IsSound : (b : Bank) (u : ℕ) (stars : ℤ) → IsBalanced b → IsSound (debit_stars b u stars)
unfolding debit_stars
debit-IsSound b u (negsuc n) h = tt
debit-IsSound b u (pos n) h = elim (Bool-cases (n == 0)) [
  | inl e ↦ rw e tt
  | inr e ↦ elim (Bool-cases (too_low (get u b.balances) n)) [
    | inl low ↦ rw (e, low) tt
    | inr ok ↦ rw (e, ok) (book-out b u n (enough b u n ok) h)
  ]
]

-- A debit that is not refused keeps every balance equal to what its user received less what they paid.
debit_stars-IsBalanced :
    (b b' : Bank) (user_id : ℕ) (stars : ℤ)
    → IsBalanced b
    → debit_stars b user_id stars ≡ inr b'
    → IsBalanced b'
debit_stars-IsBalanced b b' u stars h e = subst IsSound e (debit-IsSound b u stars h)

other_balance :
    (b : Bank) (u amount stars : ℕ) (inbound : Bool) (v : ℕ)
    → u ≢ v
    → balance_of (book u amount stars inbound b) v ≡ balance_of b v
other_balance b u amount stars inbound v apart =
    ground (arith, balance_of-book b u amount stars inbound v)

move_stars-IsBalanced :
    (b : Bank) (payer recipient stars credited : ℕ)
    → payer ≢ recipient
    → stars ≤ balance_of b payer
    → IsBalanced b
    → IsBalanced (move_stars b payer recipient stars credited)
unfolding move_stars
move_stars-IsBalanced b payer recipient stars credited apart le h =
    let b₁ = book payer (balance_of b payer - stars) stars false b in
    subst (λ n. IsBalanced (book recipient (n + credited) credited true b₁))
      (other_balance b payer (balance_of b payer - stars) stars false recipient apart)
      (book-in b₁ recipient credited (book-out b payer stars le h))

checked-IsSound :
    (b : Bank) (payer recipient stars credited : ℕ)
    → payer ≢ recipient
    → IsBalanced b
    → IsSound (transfer_checked b payer recipient stars credited)
unfolding transfer_checked
checked-IsSound b payer recipient stars credited apart h =
    elim (Bool-cases (credited == 0 || ltb stars credited)) [
      | inl e ↦ rw e tt
      | inr e ↦ elim (Bool-cases (too_low (get payer b.balances) stars)) [
        | inl low ↦ rw (e, low) tt
        | inr ok ↦
            rw (e, ok)
              (move_stars-IsBalanced b payer recipient stars credited apart
                (enough b payer stars ok) h)
      ]
    ]

transfer-IsSound :
    (b : Bank) (payer recipient : ℕ) (stars : ℤ) (recipient_stars : Option ℤ)
    → payer ≢ recipient
    → IsBalanced b
    → IsSound (transfer_stars b payer recipient stars recipient_stars)
unfolding transfer_stars
transfer-IsSound b payer recipient (negsuc n) recipient_stars apart h = tt
transfer-IsSound b payer recipient (pos n) recipient_stars apart h =
    if_intro IsSound (n == 0) {x = inl stars_amount_invalid} tt
      (checked-IsSound b payer recipient n (credited_of n recipient_stars) apart h)

-- A transfer between two users that is not refused keeps every balance equal to what its user received
-- less what they paid.
pub transfer_stars-IsBalanced :
    (b b' : Bank) (payer recipient : ℕ) (stars : ℤ) (recipient_stars : Option ℤ)
    → payer ≢ recipient
    → IsBalanced b
    → transfer_stars b payer recipient stars recipient_stars ≡ inr b'
    → IsBalanced b'
transfer_stars-IsBalanced b b' payer recipient stars recipient_stars apart h e =
    subst IsSound e (transfer-IsSound b payer recipient stars recipient_stars apart h)
