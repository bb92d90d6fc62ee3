-- ===== src/Domain/Item.antt =====
-- internal/domain/sale/item.go.
use flashsale_service.Prelude.{ℕ, String, Bool, true, false, Option, none, some, ◌==◌}

pub record Item : Type 0 where
  pub id : String
  pub sale_id : String
  pub name : String
  pub image_url : String
  pub sold : Bool
  pub sold_to_user_id : String
  pub sold_at : Option ℕ
  pub created_at : ℕ

unfoldable pub new_item : String → String → String → String → ℕ → Item
new_item id sale_id name image_url now = record {
  id = id;
  sale_id = sale_id;
  name = name;
  image_url = image_url;
  sold = false;
  sold_to_user_id = "";
  sold_at = none;
  created_at = now;
}

unfoldable pub mark_as_sold : String → ℕ → Item → Item
mark_as_sold user_id now i = record i { sold = true; sold_to_user_id = user_id; sold_at = some now }

unfoldable pub is_sold : Item → Bool
is_sold i = i.sold

unfoldable pub belongs_to_sale : Item → String → Bool
belongs_to_sale i sale_id = i.sale_id == sale_id
