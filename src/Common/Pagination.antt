-- ===== src/Common/Pagination.antt =====
-- `make_paginated_response` of app/common/pagination.py, with the query for a page of the listing of
-- payments in app/api/v1/payments.py. The rows are those that match, in the listing's order. Of a URL the
-- model has what a page is read from; a text of filters is a number.
pub mod Walk
use ushbooknpay.Base.{
  ℕ, suc, zero, ◌+◌, ◌-◌, ◌*◌, ◌/◌, max, Option, none, some, List, [], ◌∷◌, ◌++◌, ltb, ◌==◌, take,
  drop, length, if◌then◌else◌,
}

-- `base_url`: empty, without a query, or with one, as it is when the listing is filtered.
pub data BaseUrl : Type 0 where
  no_url plain : BaseUrl
  with_query : ℕ → BaseUrl

-- f"{base_url}?page={p}&page_size={page_size}"
pub record PageUrl : Type 0 where
  pub base_url : BaseUrl
  pub page : ℕ
  pub page_size : ℕ

-- `_page_url`
abbrev pub page_url : BaseUrl → ℕ → ℕ → Option PageUrl
page_url no_url p page_size = none
page_url plain p page_size = some (record { base_url = plain; page = p; page_size = page_size })
page_url (with_query q) p page_size =
    some (record { base_url = with_query q; page = p; page_size = page_size })

-- `page: int = Query(1, ge=1)` of a request for the URL: behind a query, `?page=` is the end of the text of
-- the last filter, so that the request names no page.
abbrev pub requested_page : PageUrl → ℕ
requested_page u = elim u.base_url [ no_url ↦ u.page | plain ↦ u.page | with_query q ↦ 1 ]

pub record PaginatedResponse {ℓ} (A : Type ℓ) : Type ℓ where
  pub items : List A
  pub count : ℕ
  pub total_pages : ℕ
  pub current_page : ℕ
  pub page_size : ℕ
  pub next : Option PageUrl
  pub previous : Option PageUrl

-- `max(1, math.ceil(count / page_size)) if page_size > 0 else 1`
unfoldable pub total_pages_of : ℕ → ℕ → ℕ
total_pages_of count page_size =
    if page_size == 0 then 1 else max 1 ((count + page_size - 1) / page_size)

module _ {ℓ} {A : Type ℓ} where
  unfoldable pub make_paginated_response : List A → ℕ → ℕ → ℕ → BaseUrl → PaginatedResponse A
  unfolding total_pages_of
  make_paginated_response items count page page_size base_url =
      let total_pages = total_pages_of count page_size in
      record {
        items = items;
        count = count;
        total_pages = total_pages;
        current_page = page;
        page_size = page_size;
        next = if ltb page total_pages then page_url base_url (page + 1) page_size else none;
        previous = if ltb 1 page then page_url base_url (page - 1) page_size else none;
      }

  -- `.offset((page - 1) * page_size).limit(page_size)`
  abbrev pub page_rows : List A → ℕ → ℕ → List A
  page_rows rows page page_size = take page_size (drop ((page - 1) * page_size) rows)

  unfoldable pub list_page : List A → BaseUrl → ℕ → ℕ → PaginatedResponse A
  unfolding make_paginated_response
  list_page rows base_url page page_size =
      make_paginated_response (page_rows rows page page_size) (length rows) page page_size base_url

  abbrev pub then_items : List A → Option (List A) → Option (List A)
  then_items items none = none
  then_items items (some rest) = some (items ++ rest)

  -- A client that follows the links to the next page of a listing without filters; `none` where it has not come to the end after so
  -- many pages.
  unfoldable pub walk : ℕ → List A → ℕ → ℕ → Option (List A)
  unfolding list_page
  walk zero rows page page_size = none
  walk (suc n) rows page page_size =
      let response = list_page rows plain page page_size in
      then_items response.items (elim response.next [
        | none ↦ some []
        | some u ↦ walk n rows (requested_page u) u.page_size
      ])
