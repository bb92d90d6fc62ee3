-- ===== src/Postgres/Query.antt =====
-- The SQL statements of the sale repository, as functions of the tables.
use flashsale_service.Prelude.{
  ℕ, suc, String, List, [], ◌∷◌, ◌++◌, Bool, true, false, not, ◌&&◌, ◌==◌, ltb, leb, if◌then◌else◌,
  Option, none, some, take, drop,
}
use flashsale_service.Errors.{external}
use flashsale_service.Effect.{Result, ok, err}
use flashsale_service.Domain.Sale.{Sale}
use flashsale_service.Domain.Item.{Item}
use flashsale_service.Domain.PurchaseService.{PurchaseResult}
use flashsale_service.Postgres.Store.{Tables}

-- SELECT … FROM sales WHERE id = $1, and the same of items. The id is the primary key.
unfoldable pub find_sale : String → List Sale → Option Sale
find_sale id [] = none
find_sale id (s ∷ ss) = if s.id == id then some s else find_sale id ss

unfoldable pub find_item : String → List Item → Option Item
find_item id [] = none
find_item id (i ∷ is) = if i.id == id then some i else find_item id is

-- WHERE started_at <= NOW() AND ended_at > NOW()
abbrev pub in_window : ℕ → Sale → Bool
in_window now s = leb s.started_at now && ltb now s.ended_at

-- ORDER BY started_at DESC LIMIT 1
abbrev pub later_start : Sale → Option Sale → Option Sale
later_start s none = some s
later_start s (some t) = if ltb s.started_at t.started_at then some t else some s

unfoldable pub latest_active : ℕ → List Sale → Option Sale
latest_active now [] = none
latest_active now (s ∷ ss) =
    let rest = latest_active now ss in if in_window now s then later_start s rest else rest

-- UPDATE sales SET started_at, ended_at, total_items, items_sold WHERE id = $1
abbrev pub overwrite_sale : Sale → Sale → Sale
overwrite_sale s row = record row {
  started_at = s.started_at;
  ended_at = s.ended_at;
  total_items = s.total_items;
  items_sold = s.items_sold;
}

unfoldable pub update_sales : Sale → List Sale → List Sale
update_sales s [] = []
update_sales s (row ∷ rows) =
    (if row.id == s.id then overwrite_sale s row else row) ∷ update_sales s rows

-- UPDATE items SET sold = TRUE, sold_to_user_id = $2, sold_at = NOW() WHERE id = $1 AND sold = FALSE
abbrev pub matches_unsold : String → Item → Bool
matches_unsold id row = row.id == id && not row.sold

abbrev pub sell_row : String → ℕ → Item → Item
sell_row user_id now row = record row { sold = true; sold_to_user_id = user_id; sold_at = some now }

unfoldable pub sell_rows : String → String → ℕ → List Item → List Item
sell_rows id user_id now [] = []
sell_rows id user_id now (row ∷ rows) =
    (if matches_unsold id row then sell_row user_id now row else row)
    ∷ sell_rows id user_id now rows

-- `RowsAffected` of that statement.
unfoldable pub rows_affected : String → List Item → ℕ
rows_affected id [] = 0
rows_affected id (row ∷ rows) =
    if matches_unsold id row then suc (rows_affected id rows) else rows_affected id rows

-- SELECT … FROM items WHERE sale_id = $1 (AND sold = FALSE) ORDER BY created_at. Rows of one
-- instant keep the order of the table.
unfoldable pub select_items : (Item → Bool) → List Item → List Item
select_items p [] = []
select_items p (i ∷ is) = if p i then i ∷ select_items p is else select_items p is

unfoldable pub insert_by_created_at : Item → List Item → List Item
insert_by_created_at i [] = i ∷ []
insert_by_created_at i (j ∷ js) =
    if leb i.created_at j.created_at then i ∷ j ∷ js else j ∷ insert_by_created_at i js

unfoldable pub order_by_created_at : List Item → List Item
order_by_created_at [] = []
order_by_created_at (i ∷ is) = insert_by_created_at i (order_by_created_at is)

-- LIMIT $2 OFFSET $3
abbrev pub page : ℕ → ℕ → List Item → List Item
page limit offset is = take limit (drop offset is)

unfoldable pub has_sale : String → List Sale → Bool
has_sale id [] = false
has_sale id (s ∷ ss) = if s.id == id then true else has_sale id ss

unfoldable pub has_item_row : String → List Item → Bool
has_item_row id [] = false
has_item_row id (i ∷ is) = if i.id == id then true else has_item_row id is

-- INSERT INTO items (id, sale_id, name, image_url, sold, created_at): the other columns are NULL,
-- which is read back as no user and no time.
abbrev pub inserted_row : Item → Item
inserted_row i = record i { sold_to_user_id = ""; sold_at = none }

-- `id` is the primary key, and `sale_id` refers to a sale.
unfoldable pub insert_item : Item → Tables → Result (Unit {0} × Tables)
insert_item i d =
    if has_item_row i.id d.items
    then err (external "duplicate key value violates unique constraint")
    else if not (has_sale i.sale_id d.sales)
    then err (external "insert violates foreign key constraint")
    else ok (tt, record d { items = d.items ++ inserted_row i ∷ [] })

unfoldable pub insert_sale : Sale → Tables → Result (Unit {0} × Tables)
insert_sale s d =
    if has_sale s.id d.sales
    then err (external "duplicate key value violates unique constraint")
    else ok (tt, record d { sales = d.sales ++ s ∷ [] })

unfoldable pub find_result : String → List (String × PurchaseResult) → Option PurchaseResult
find_result code [] = none
find_result code ((c, r) ∷ rs) = if c == code then some r else find_result code rs

-- INSERT INTO purchase_results … ON CONFLICT (checkout_code) DO NOTHING
abbrev pub insert_result :
    String → PurchaseResult → List (String × PurchaseResult) → List (String × PurchaseResult)
insert_result code r rs = elim (find_result code rs) [ none ↦ (code, r) ∷ rs | some _ ↦ rs ]
