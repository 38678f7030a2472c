-- ===== src/Tests/Utils.antt =====
-- Concrete inputs for the theorems on piltover/utils.
use piltover.Base.{[], arith, refl, some, ℕ, ◌∷◌, ◌≡◌}
use piltover.Base.Ints.{pos}
use piltover.Utils.RepeatedList.{
  RepeatedList, item, iter, run, getitem, copies, found, get_elem?, repeated_list_exact,
}

abbrev thrice : RepeatedList ℕ
thrice = record { collection = 4 ∷ 7 ∷ []; repeat_times = 3 }

getitem_test : getitem thrice (pos 3) ≡ item 7
unfolding getitem
getitem_test = refl

repeated_list_exact_example :
    (run 7 (iter thrice) ≡ some (4 ∷ 7 ∷ 4 ∷ 7 ∷ 4 ∷ 7 ∷ []))
    × (getitem thrice (pos 3) ≡ found (get_elem? (copies 3 (4 ∷ 7 ∷ [])) 3))
repeated_list_exact_example = repeated_list_exact 7 thrice 3 (omega arith)
