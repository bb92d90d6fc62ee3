-- ===== src/Scheduler.antt =====
-- internal/infrastructure/scheduler/sale_scheduler.go, `createSaleIfNeeded`. What it draws is a
-- parameter: the sale's id, the hour that began last, the present, and the generated items.
pub mod Books
mod Tests
use flashsale_service.Postgres.SaleRepository.{create_sale, create_items, get_active_sale}
use flashsale_service.Postgres.Store.{Store, pool}
use flashsale_service.Domain.Item.{Item, new_item}
use flashsale_service.Domain.Sale.{Sale}
use flashsale_service.Prelude.{
  ◌≡◌, refl, String, ℕ, List, ℤ, ◌+◌, [], pos, suc, ◌∷◌, zero, pos_part,
}
use flashsale_service.Effect.{◌>>◌, M, ◌>>=◌, attempt, ok, pure, err, Result}

-- What one round of the loop draws for an item.
pub record Drawn : Type 0 where
  pub item_id : String
  pub name : String
  pub image_url : String
  pub at : ℕ

abbrev pub hour : ℕ
hour = 3_600_000_000_000

-- `for i := 0; i < totalItems; i++`
unfoldable pub drawn_items : String → (ℕ → Drawn) → ℕ → ℕ → List Item
drawn_items sale_id draw i zero = []
drawn_items sale_id draw i (suc left) =
    let d = draw i in
    new_item d.item_id sale_id d.name d.image_url d.at ∷ drawn_items sale_id draw (i + 1) left

unfoldable pub hourly_sale : String → ℕ → ℕ → ℤ → Sale
hourly_sale sale_id started_at now total_items = record {
  id = sale_id;
  started_at = started_at;
  ended_at = started_at + hour;
  total_items = total_items;
  items_sold = pos 0;
  created_at = now;
}

unfoldable pub create_hourly : Sale → List Item → M Store (Unit {0})
create_hourly s items = create_sale pool s >> create_items pool items

-- Any error of `GetActiveSale` counts as no active sale.
unfoldable pub unless_active : Sale → List Item → Result Sale → M Store (Unit {0})
unfolding create_hourly
unless_active s items (ok _) = pure tt
unless_active s items (err _) = create_hourly s items

unfoldable pub create_sale_if_needed :
    String → (started_at now : ℕ) → ℤ → (ℕ → Drawn) → M Store (Unit {0})
unfolding unless_active hourly_sale drawn_items
create_sale_if_needed sale_id started_at now total_items draw = do
  found ← attempt (get_active_sale pool)
  unless_active (hourly_sale sale_id started_at now total_items)
      (drawn_items sale_id draw 0 (pos_part total_items)) found
