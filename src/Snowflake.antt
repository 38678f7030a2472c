-- ===== src/Snowflake.antt =====
-- piltover/utils/snowflake.py: ids from the time, the worker, the process and a counter.
use piltover.Base.{
  Bool, arith, if◌then◌else◌, inl, inr, true, ℕ, ◌%◌, ◌*◌, ◌+◌, ◌-◌, ◌/◌, ◌<◌, ◌^◌, ◌≡◌, ◌≤◌, ◌⊎◌,
}

-- The class attributes that `make_id` reads and writes.
pub record Maker : Type 0 where
  pub increment : ℕ
  pub worker : ℕ
  pub process : ℕ

abbrev pub epoch : ℕ
epoch = 1704067200000

abbrev max_timestamp : ℕ
max_timestamp = 2 ^ 42

-- `make_id`, at a time in milliseconds that is not before the epoch; a shift to the left is a product.
unfoldable pub make_id : Maker → ℕ → Bool → ℕ × Maker
make_id m now increment =
    let timestamp = now - epoch in
    (
      timestamp % max_timestamp * 2 ^ 22
          + m.worker % 32 * 2 ^ 17
          + m.process % 32 * 2 ^ 12
          + m.increment % 4096,
      (if increment then record m { increment = m.increment + 1 } else m),
    )

-- The four parts of an id can be read from it: the milliseconds since the epoch, while there are fewer
-- than 2^42 of them, the worker, the process and the counter, these by their remainders.
make_id_parts :
    (m : Maker) (now : ℕ) (increment : Bool)
    → now < epoch + max_timestamp
    → let id = (make_id m now increment).0 in
      (id / 2 ^ 22 ≡ now - epoch)
      × (id / 2 ^ 17 % 32 ≡ m.worker % 32)
      × (id / 2 ^ 12 % 32 ≡ m.process % 32)
      × (id % 4096 ≡ m.increment % 4096)
unfolding make_id
make_id_parts m now increment h = (omega arith, omega arith, omega arith, omega arith)

-- An id that is made after another one by the same process is greater, if the clock has gone on by a
-- millisecond, or has not gone back and the counter has not passed a multiple of 4096.
pub make_id_grows :
    (m : Maker) (now later : ℕ) (increment : Bool)
    → epoch ≤ now
    → later < epoch + max_timestamp
    → (now < later) ⊎ ((now ≡ later) × (m.increment % 4096 < 4095))
    → let (id, m') = make_id m now true in id < (make_id m' later increment).0
unfolding make_id
make_id_grows m now later increment h room (inl after) = omega arith
make_id_grows m now later increment h room (inr (same, counter)) = omega arith
