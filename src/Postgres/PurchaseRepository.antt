-- ===== src/Postgres/PurchaseRepository.antt =====
-- internal/infrastructure/persistence/postgres/purchase_repository.go. Metrics are left out.
pub mod Creation
pub mod Listing
mod Tests
use flashsale_service.Prelude.{
  String, Option, ℕ, List, none, Bool, some, false, if◌then◌else◌, ◌∷◌, leb, ◌==◌, not, [], ◌||◌,
  ◌&&◌, ◌++◌, suc,
}
use flashsale_service.Effect.{ok, err, M, Result}
use flashsale_service.Errors.{Error, external}
use flashsale_service.Postgres.Store.{Purchase, Tables, Store, run, pool, in_tx}
use flashsale_service.Postgres.Query.{has_sale, has_item_row}
use flashsale_service.Postgres.SaleRepository.{reading}
use flashsale_service.Postgres.CheckoutRepository.{duplicate_key, missing_key}

unfoldable pub has_purchase : String → List Purchase → Bool
has_purchase id [] = false
has_purchase id (p ∷ ps) = p.id == id || has_purchase id ps

abbrev pub null_id : Error
null_id = external "null value in column \"id\" violates not-null constraint"

-- What PostgreSQL puts into the column `id` of a row that is inserted without it: the table gives
-- the column no default.
abbrev pub id_default : Option String
id_default = none

-- INSERT INTO purchases (sale_id, user_id, item_id, checkout_code, purchased_at): the statement names
-- no `id`, so that the row gets the default of the column, which is the primary key and not null.
unfoldable pub insert_purchase :
    Option String
    → (sale_id user_id item_id checkout_code : String) (now : ℕ) (d : Tables)
    → Result (Unit {0} × Tables)
insert_purchase none sale_id user_id item_id checkout_code now d = err null_id
insert_purchase (some id) sale_id user_id item_id checkout_code now d =
    if has_purchase id d.purchases
    then err duplicate_key
    else if not (has_sale sale_id d.sales && has_item_row item_id d.items)
    then err missing_key
    else ok (
      tt,
      record d {
        purchases =
            d.purchases
            ++ record {
              id = id;
              sale_id = sale_id;
              user_id = user_id;
              item_id = item_id;
              checkout_code = checkout_code;
              purchased_at = now;
            }
              ∷ [];
      },
    )

unfoldable pub create_purchase :
    (tx : ℕ) (sale_id user_id item_id checkout_code : String) → M Store (Unit {0})
unfolding insert_purchase
create_purchase tx sale_id user_id item_id checkout_code =
    run (in_tx tx) (insert_purchase id_default sale_id user_id item_id checkout_code)

-- SELECT COUNT(*) … WHERE sale_id = $1 AND user_id = $2
unfoldable pub count_purchases : String → String → List Purchase → ℕ
count_purchases sale_id user_id [] = 0
count_purchases sale_id user_id (p ∷ ps) =
    let rest = count_purchases sale_id user_id ps in
    if p.sale_id == sale_id && p.user_id == user_id then suc rest else rest

unfoldable pub get_user_purchase_count : String → String → M Store ℕ
unfolding count_purchases
get_user_purchase_count sale_id user_id =
    run pool (reading (λ now d. count_purchases sale_id user_id d.purchases))

-- ORDER BY purchased_at: `goes_first` is `<=`, and `>=` where DESC is written. Rows of one instant
-- keep the order of the table.
unfoldable pub insert_purchased : (ℕ → ℕ → Bool) → Purchase → List Purchase → List Purchase
insert_purchased goes_first p [] = p ∷ []
insert_purchased goes_first p (q ∷ qs) =
    let rest = insert_purchased goes_first p qs in
    if goes_first p.purchased_at q.purchased_at then p ∷ q ∷ qs else q ∷ rest

unfoldable pub select_purchases : (ℕ → ℕ → Bool) → (Purchase → Bool) → List Purchase → List Purchase
unfolding insert_purchased
select_purchases goes_first wanted [] = []
select_purchases goes_first wanted (p ∷ ps) =
    let rest = select_purchases goes_first wanted ps in
    if wanted p then insert_purchased goes_first p rest else rest

unfoldable pub get_purchases_by_sale_id : String → M Store (List Purchase)
unfolding select_purchases
get_purchases_by_sale_id sale_id =
    run pool (reading (λ now d. select_purchases leb (λ p. p.sale_id == sale_id) d.purchases))

unfoldable pub get_purchases_by_user_id : String → M Store (List Purchase)
unfolding select_purchases
get_purchases_by_user_id user_id =
    run pool
      (reading (λ now d. select_purchases (λ a b. leb b a) (λ p. p.user_id == user_id) d.purchases))
