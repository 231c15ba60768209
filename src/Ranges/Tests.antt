-- ===== src/Ranges/Tests.antt =====
-- The list `1,3-5,7-`.
use tcpreplay.Prelude.{◌≡◌, ◌↔◌, arith, true, List, [], ◌∷◌, some, Any}
use tcpreplay.Ranges.{Range, parse_list, check_list}
use tcpreplay.Ranges.Parse.{Item, single, between, upward, print, Covers}
use tcpreplay.Ranges.Check.{check_list-parse_list}

abbrev items : List Item
items = between 3 5 ∷ upward 7 ∷ []

check_list-parse_list_example :
    (rs : List Range) × (parse_list (print (single 1) items) ≡ some rs)
    × ((check_list rs 6 ≡ true) ↔ Any (Covers 6) (single 1 ∷ items))
check_list-parse_list_example = check_list-parse_list 6 (single 1) items (
  (omega arith, omega arith),
  (((omega arith, omega arith), (omega arith, omega arith)), ((omega arith, omega arith), tt)),
)
