-- ===== src/Postgres/Stock.antt =====
-- What has been sold, as the tables tell it, and how the statement that sells an item changes it.
pub mod Sell
pub mod Books
pub mod Create
pub mod Stocked
use mathlib.Core.Option
use flashsale_service.Prelude.{
  ℕ, suc, ◌+◌, ◌≤◌, String, List, [], ◌∷◌, Bool, true, false, not, ◌&&◌, ◌==◌, ltb, Option, none,
  some, ◌≡◌, if◌then◌else◌,
}
use flashsale_service.Domain.Item.{Item}
use flashsale_service.Postgres.Query.{
  find_item, matches_unsold, sell_row, sell_rows, rows_affected, has_item_row,
}

-- The number of items of a sale that are sold.
unfoldable pub sold_in : String → List Item → ℕ
sold_in sale_id [] = 0
sold_in sale_id (i ∷ is) =
    if i.sale_id == sale_id && i.sold then suc (sold_in sale_id is) else sold_in sale_id is

-- The primary key of the items.
abbrev pub UniqueIds : List Item → Type 0
UniqueIds [] = Unit
UniqueIds (i ∷ is) = (has_item_row i.id is ≡ false) × UniqueIds is

-- An item that is sold keeps its row: its buyer and the time of the sale.
pub record KeepsSold (before after : List Item) : Type 0 where
  pub row :
      (id : String) (i : Item)
      → find_item id before ≡ some i
      → i.sold ≡ true
      → find_item id after ≡ some i

-- Rows keep their sale.
pub record SameSales (before after : List Item) : Type 0 where
  pub sale :
      (id : String)
      → Option.map (λ i. i.sale_id) (find_item id after)
        ≡ Option.map (λ i. i.sale_id) (find_item id before)
