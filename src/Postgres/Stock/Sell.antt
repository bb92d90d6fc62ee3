-- ===== src/Postgres/Stock/Sell.antt =====
-- UPDATE items SET sold = TRUE … WHERE id = $1 AND sold = FALSE: at most one row changes, the
-- count of its sale goes up by the rows affected, and rows that were sold stay as they are.
use mathlib.Core.Option
use mathlib.Core.Path.{subst}
use flashsale_service.Prelude.{
  ℕ, ◌+◌, ◌≤◌, String, List, [], ◌∷◌, false, ◌==◌, some, ◌≡◌, if◌then◌else◌, arith, refl, eq_iff,
  Bool-cases, inl, inr,
}
use flashsale_service.Domain.Item.{Item}
use flashsale_service.Postgres.Query.{
  find_item, matches_unsold, sell_row, sell_rows, rows_affected, has_item_row,
}
use flashsale_service.Postgres.Stock.{sold_in, UniqueIds, KeepsSold, SameSales}

module _ (id user_id : String) (now : ℕ) where
  abbrev sell_if : Item → Item
  sell_if row = if matches_unsold id row then sell_row user_id now row else row

  pub find_item-sell_rows :
      (j : String) (rows : List Item)
      → find_item j (sell_rows id user_id now rows) ≡ Option.map sell_if (find_item j rows)
  unfolding find_item sell_rows
  find_item-sell_rows j [] = refl
  find_item-sell_rows j (r ∷ rs) = ground (arith, find_item-sell_rows j rs)

  has_item_row-sell_rows :
      (j : String) (rows : List Item)
      → has_item_row j (sell_rows id user_id now rows) ≡ has_item_row j rows
  unfolding has_item_row sell_rows
  has_item_row-sell_rows j [] = refl
  has_item_row-sell_rows j (r ∷ rs) = ground (arith, has_item_row-sell_rows j rs)

  pub sell_rows-UniqueIds :
      (rows : List Item) → UniqueIds rows → UniqueIds (sell_rows id user_id now rows)
  unfolding sell_rows
  sell_rows-UniqueIds [] h = tt
  sell_rows-UniqueIds (r ∷ rs) h =
      ground (arith, sell_rows-UniqueIds rs h.1, has_item_row-sell_rows r.id rs)

  pub sell_rows-KeepsSold : (rows : List Item) → KeepsSold rows (sell_rows id user_id now rows)
  sell_rows-KeepsSold rows = record {
    row = λ j i found sold. rw find_item-sell_rows (ground arith);
  }

  pub sell_rows-SameSales : (rows : List Item) → SameSales rows (sell_rows id user_id now rows)
  sell_rows-SameSales rows = record { sale = λ j. rw find_item-sell_rows (ground arith) }

  no_row : (rows : List Item) → has_item_row id rows ≡ false → rows_affected id rows ≡ 0
  unfolding has_item_row rows_affected
  no_row [] h = refl
  no_row (r ∷ rs) h = ground (arith, no_row rs)

  no_row_sold :
      (sale_id : String) (rows : List Item)
      → has_item_row id rows ≡ false
      → sold_in sale_id (sell_rows id user_id now rows) ≡ sold_in sale_id rows
  unfolding has_item_row sell_rows sold_in
  no_row_sold sale_id [] h = refl
  no_row_sold sale_id (r ∷ rs) h = ground (arith, no_row_sold sale_id rs)

  pub rows_affected-le-one : (rows : List Item) → UniqueIds rows → rows_affected id rows ≤ 1
  unfolding rows_affected
  rows_affected-le-one [] h = omega arith
  rows_affected-le-one (r ∷ rs) h =
      ground (arith, rows_affected-le-one rs h.1, no_row rs, eq_iff r.id id)

  -- The count of a sale after the statement, for an id that is a row of `sale_id` if it is a row.
  pub sold_in-sell_rows :
      (sale_id j : String) (rows : List Item)
      → UniqueIds rows
      → ((i : Item) → find_item id rows ≡ some i → i.sale_id ≡ sale_id)
      → sold_in j (sell_rows id user_id now rows)
        ≡ sold_in j rows + (if sale_id == j then rows_affected id rows else 0)
  unfolding sell_rows sold_in rows_affected find_item
  sold_in-sell_rows sale_id j [] u h = ground arith
  sold_in-sell_rows sale_id j (r ∷ rs) u h = elim (Bool-cases (r.id == id)) [
    | inl same ↦
        let absent : has_item_row id rs ≡ false =
          subst (λ x. has_item_row x rs ≡ false) ((eq_iff r.id id).0 same) u.0 in
        ground (arith, h r (rw same), no_row rs absent, no_row_sold j rs absent)
    | inr other ↦
        ground (arith, sold_in-sell_rows sale_id j rs u.1 (λ i found. h i (rw other found)))
  ]
