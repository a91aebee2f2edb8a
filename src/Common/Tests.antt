-- ===== src/Common/Tests.antt =====
-- Five rows, two to a page.
use ushbooknpay.Base.{ℕ, ◌≡◌, refl, some, none, List, [], ◌∷◌, arith}
use ushbooknpay.Common.Pagination.{
  plain, with_query, total_pages_of, make_paginated_response, list_page, requested_page, walk,
}
use ushbooknpay.Common.Pagination.Walk.{walk-rows}

abbrev five : List ℕ
five = 4 ∷ 8 ∷ 15 ∷ 16 ∷ 23 ∷ []

second_page : (list_page five plain 2 2).items ≡ 15 ∷ 16 ∷ []
unfolding list_page make_paginated_response
second_page = refl

-- With a filter, the link to the next page of the first page asks for the first page.
abbrev asked_next : ℕ
unfolding list_page make_paginated_response
asked_next = elim (list_page five (with_query 6) 1 2).next [ none ↦ 0 | some u ↦ requested_page u ]

filtered_link : asked_next ≡ 1
unfolding list_page make_paginated_response
filtered_link = refl

walk-rows_example : walk (total_pages_of 5 2) five 1 2 ≡ some five
walk-rows_example = walk-rows five 2 (omega arith)
