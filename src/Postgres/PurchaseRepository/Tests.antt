-- ===== src/Postgres/PurchaseRepository/Tests.antt =====
-- The purchase repository on concrete tables.
use flashsale_service.Prelude.{String, ◌∷◌, List, ℕ, [], ◌≡◌, ◌==◌, leb, refl}
use flashsale_service.Effect.{ok}
use flashsale_service.Postgres.Store.{answered, active, Store, Purchase, commit}
use flashsale_service.Postgres.PurchaseRepository.{
  create_purchase, get_purchases_by_sale_id, get_purchases_by_user_id, get_user_purchase_count,
}
use flashsale_service.Postgres.PurchaseRepository.Creation.{FailedWith, create_purchase-FailedWith}
use flashsale_service.Postgres.PurchaseRepository.Listing.{purchases-agree, InOrder, count_where}
use flashsale_service.Service.Samples.{sample_world}

abbrev bought : String → String → ℕ → Purchase
bought id user_id at = record {
  id = id;
  sale_id = "S-1";
  user_id = user_id;
  item_id = id;
  checkout_code = "CHK";
  purchased_at = at;
}

abbrev bought_store : Store
bought_store = record sample_world.store {
  tables = record sample_world.store.tables {
    purchases = bought "a" "u" 5 ∷ bought "b" "v" 3 ∷ bought "c" "u" 4 ∷ [];
  };
  answers = λ _. answered;
}

abbrev begun : Store
begun = record bought_store { txs = λ _. active bought_store.tables }

create_purchase-FailedWith_example :
    FailedWith begun.tables (create_purchase 0 "S-1" "u" "a" "CHK" begun)
    × FailedWith begun.tables (commit 0 (create_purchase 0 "S-1" "u" "a" "CHK" begun).1)
create_purchase-FailedWith_example = create_purchase-FailedWith 0 "S-1" "u" "a" "CHK" begun

purchases-agree_example :
    (by_sale by_user : List Purchase) × ((get_purchases_by_sale_id "S-1" bought_store).0
      ≡ ok by_sale)
    × ((get_purchases_by_user_id "u" bought_store).0 ≡ ok by_user)
    × ((get_user_purchase_count "S-1" "u" bought_store).0
        ≡ ok (count_where (λ p. p.user_id == "u") by_sale))
    × ((get_user_purchase_count "S-1" "u" bought_store).0
        ≡ ok (count_where (λ p. p.sale_id == "S-1") by_user))
    × InOrder leb by_sale
    × InOrder (λ a b. leb b a) by_user
purchases-agree_example = purchases-agree "S-1" "u" bought_store refl
