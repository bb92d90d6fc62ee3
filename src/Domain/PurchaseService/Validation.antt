-- ===== src/Domain/PurchaseService/Validation.antt =====
-- `ValidatePurchase` against the conditions that it stands for.
use flashsale_service.Prelude.{
  ℕ, String, pos, ◌+ℤ◌, ◌≤ℤ◌, ◌≡◌, refl, ◌↔◌, ◌≢◌, true, some, List, [], ◌∷◌, arith, length, eq_iff,
}
use flashsale_service.Effect.{ok}
use flashsale_service.Domain.Sale.{Sale, is_active}
use flashsale_service.Domain.Item.{Item, belongs_to_sale}
use flashsale_service.Domain.PurchaseService.{
  PurchaseService, UserLimits, check_items, check_sale, validate_purchase,
}

-- Every item names the sale.
abbrev pub AllOfSale : String → List Item → Type 0
AllOfSale sale_id [] = Unit
AllOfSale sale_id (i ∷ is) = (i.sale_id ≡ sale_id) × AllOfSale sale_id is

pub check_items_sound :
    (sale_id : String) (items : List Item)
    → check_items sale_id items ≡ ok tt
    → AllOfSale sale_id items
unfolding check_items belongs_to_sale
check_items_sound sale_id [] h = tt
check_items_sound sale_id (i ∷ is) h =
    ground (arith, eq_iff i.sale_id sale_id, check_items_sound sale_id is)

check_items_complete :
    (sale_id : String) (items : List Item)
    → AllOfSale sale_id items
    → check_items sale_id items ≡ ok tt
unfolding check_items belongs_to_sale
check_items_complete sale_id [] h = refl
check_items_complete sale_id (i ∷ is) h =
    ground (arith, eq_iff i.sale_id sale_id, check_items_complete sale_id is h.1)

-- What a purchase of these items from the sale has to satisfy.
abbrev pub Allowed : PurchaseService → Sale → UserLimits → List Item → ℕ → Type 0
Allowed svc s limits items now =
    (is_active s now ≡ true)
    × (items ≢ [])
    × (s.items_sold +ℤ pos (length items) ≤ℤ svc.max_items_per_sale)
    × (limits.current_item_count +ℤ pos (length items) ≤ℤ svc.max_items_per_user)
    × AllOfSale s.id items

pub validate_purchase_sound :
    (svc : PurchaseService) (s : Sale) (limits : UserLimits) (items : List Item) (now : ℕ)
    → validate_purchase svc (some s) limits items now ≡ ok tt
    → Allowed svc s limits items now
unfolding validate_purchase check_sale
validate_purchase_sound svc s limits [] now h = ground arith
validate_purchase_sound svc s limits (i ∷ is) now h =
    ground (arith, check_items_sound s.id (i ∷ is))

validate_purchase_complete :
    (svc : PurchaseService) (s : Sale) (limits : UserLimits) (items : List Item) (now : ℕ)
    → Allowed svc s limits items now
    → validate_purchase svc (some s) limits items now ≡ ok tt
unfolding validate_purchase check_sale
validate_purchase_complete svc s limits [] now h = absurd (h.1 refl)
validate_purchase_complete svc s limits (i ∷ is) now h =
    ground (arith, check_items_complete s.id (i ∷ is) h.4)

-- `ValidatePurchase` accepts a purchase exactly when the sale is active, there is an item, neither
-- limit is passed, and every item belongs to the sale.
pub validate_purchase_iff :
    (svc : PurchaseService) (s : Sale) (limits : UserLimits) (items : List Item) (now : ℕ)
    → (validate_purchase svc (some s) limits items now ≡ ok tt) ↔ Allowed svc s limits items now
validate_purchase_iff svc s limits items now = (
  validate_purchase_sound svc s limits items now,
  validate_purchase_complete svc s limits items now,
)
