-- ===== src/Common/Pagination/Walk.antt =====
-- The pages of a listing, one after the other.
use ushbooknpay.Base.{
  ℕ, suc, zero, ◌+◌, ◌-◌, ◌*◌, ◌/◌, ◌≤◌, ◌<◌, max, ◌≡◌, refl, ap, sym, ◌∙◌, true, false, some, List,
  [], ◌++◌, arith, ltb, ◌==◌, take, drop, length, take-append-drop, append_nil, drop-drop, take_all,
  length-drop,
}
use mathlib.Core.Path.{subst}
use native.Mathlib.Nat.{mod-lt, div-add-mod'}
use ushbooknpay.Common.Pagination.{
  total_pages_of, make_paginated_response, page_rows, list_page, then_items, walk,
}

at_least_one : (count q size : ℕ) → count ≤ q * size → count ≤ max 1 q * size
at_least_one count zero size h = omega arith
at_least_one count (suc q) size h = let e : max 1 (suc q) ≡ suc q = omega arith in rw e h

-- The pages have room for all rows.
room : (count size : ℕ) → 0 < size → count ≤ total_pages_of count size * size
unfolding total_pages_of
room count size h =
    let q = (count + size - 1) / size in
    let full : count ≤ q * size =
      omega (arith, div-add-mod' (count + size - 1) size, mod-lt (count + size - 1) h) in
    let sized : (size == 0) ≡ false = ground (arith, h) in rw sized (at_least_one count q size full)

module _ {ℓ} {A : Type ℓ} (rows : List A) (size : ℕ) (some_size : 0 < size) where
  abbrev total : ℕ
  total = total_pages_of (length rows) size

  abbrev page : ℕ → List A
  page q = page_rows rows (suc q) size

  page_lem : (q : ℕ) → page q ≡ take size (drop (q * size) rows)
  page_lem q =
      let before : suc q - 1 ≡ q = omega arith in ap (λ k. take size (drop (k * size) rows)) before

  last_page : (q : ℕ) → suc q ≡ total → walk 1 rows (suc q) size ≡ some (page q ++ [])
  unfolding walk list_page make_paginated_response
  last_page q h = let at_end : ltb (suc q) total ≡ false = ground (arith, h) in rw at_end refl

  inner_page :
      (n q : ℕ)
      → suc q < total
      → walk (suc n) rows (suc q) size ≡ then_items (page q) (walk n rows (suc q + 1) size)
  unfolding walk list_page make_paginated_response
  inner_page n q h = let inside : ltb (suc q) total ≡ true = ground (arith, h) in rw inside refl

  -- From page q + 1 on, with as many pages as are left.
  walk_from :
      (n q : ℕ) → suc q + n ≡ total → walk (suc n) rows (suc q) size ≡ some (drop (q * size) rows)
  walk_from zero q h =
      let at_end : suc q ≡ total = omega (arith, h) in
      let enough : length rows ≤ suc q * size =
        subst (λ t. length rows ≤ t * size) (sym at_end) (room (length rows) size some_size) in
      let rest : length (drop (q * size) rows) ≤ size =
        omega (arith, length-drop (q * size) rows, enough) in
      last_page q at_end
      ∙ ap some (append_nil (page q) ∙ (page_lem q ∙ take_all size (drop (q * size) rows) rest))
  walk_from (suc n) q h =
      let inside : suc q < total = omega (arith, h) in
      let next_page : suc q + 1 ≡ suc (suc q) = omega arith in
      let later = walk_from n (suc q) (omega (arith, h)) in
      let beyond : q * size + size ≡ suc q * size = omega arith in
      inner_page (suc n) q inside
      ∙ (ap (then_items (page q)) (ap (λ p. walk (suc n) rows p size) next_page ∙ later)
          ∙ ap some (
              ap (λ l. l ++ drop (suc q * size) rows) (page_lem q)
              ∙ (ap (λ k. take size (drop (q * size) rows) ++ drop k rows) (sym beyond)
                  ∙ (ap (◌++◌ (take size (drop (q * size) rows)))
                        (sym (drop-drop (q * size) size rows))
                      ∙ take-append-drop size (drop (q * size) rows)))))

  some_page : 0 < total
  unfolding total_pages_of
  some_page =
      let sized : (size == 0) ≡ false = ground (arith, some_size) in
      let least : 0 < max 1 ((length rows + size - 1) / size) = omega arith in rw sized least

  -- In a listing that is asked for without filters, a client that starts at the first page and follows
  -- the links to the next, reading the page from each link, comes to an end after at most as many pages as the responses say that there are, and has then got every row once, in the
  -- listing's order.
  pub walk-rows : walk (total_pages_of (length rows) size) rows 1 size ≡ some rows
  walk-rows =
      let count : total ≡ suc (total - 1) = omega (arith, some_page) in
      let whole : 1 + (total - 1) ≡ total = omega (arith, some_page) in
      let none_before : 0 * size ≡ 0 = omega arith in
      ap (λ n. walk n rows 1 size) count
      ∙ (walk_from (total - 1) 0 whole ∙ ap (λ k. some (drop k rows)) none_before)
