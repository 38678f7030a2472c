-- ===== src/Tests/Snowflake.antt =====
-- A concrete input for the theorem on snowflake.py.
use piltover.Base.{arith, false, inr, refl, true, ◌+◌, ◌<◌}
use piltover.Snowflake.{Maker, make_id, epoch, make_id_grows}

abbrev maker : Maker
maker = record { increment = 7; worker = 3; process = 1234 }

make_id_grows_example :
    let (id, m') = make_id maker (epoch + 1000) true in id < (make_id m' (epoch + 1000) false).0
make_id_grows_example =
    make_id_grows maker (epoch + 1000) (epoch + 1000) false (omega arith) (omega arith)
      (inr (refl, omega arith))
