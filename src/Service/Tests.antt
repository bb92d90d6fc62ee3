-- ===== src/Service/Tests.antt =====
-- A purchase on concrete tables, and the theorems at that input.
use flashsale_service.Service.Stock.{execute_purchase-Told, execute_purchase-KeepsSold}
use flashsale_service.Postgres.Stock.{KeepsSold}
use flashsale_service.Postgres.Stock.Books.{IsConsistent}
use flashsale_service.Service.Retry.{Told}
use flashsale_service.Domain.PurchaseService.{PurchaseResult}
use flashsale_service.Service.Samples.{
  one_checkout, quiet_cache, at_five, sample_world, sample_tables, sample-IsConsistent,
}
use flashsale_service.Service.{service_ports, World}
use flashsale_service.Effect.{Result}
use flashsale_service.UseCases.Purchase.{execute_purchase, new_purchase_use_case}
use flashsale_service.Prelude.{Option}

execute_purchase-Told_example :
    let (r, w) =
      execute_purchase
        (service_ports one_checkout quiet_cache at_five)
        new_purchase_use_case
        "CHK-S-1"
        sample_world in
    Told new_purchase_use_case sample_tables r w.store.tables
execute_purchase-Told_example =
    execute_purchase-Told one_checkout quiet_cache at_five new_purchase_use_case "CHK-S-1"
      sample_world sample-IsConsistent

execute_purchase-KeepsSold_example :
    let (_, w) =
      execute_purchase
        (service_ports one_checkout quiet_cache at_five)
        new_purchase_use_case
        "CHK-S-1"
        sample_world in
    IsConsistent w.store.tables × KeepsSold sample_tables.items w.store.tables.items
execute_purchase-KeepsSold_example =
    execute_purchase-KeepsSold one_checkout quiet_cache at_five new_purchase_use_case "CHK-S-1"
      sample_world sample-IsConsistent

-- The run itself: `b` is sold to ann, `a` stays bob's, and the client is told of one item.
sample_run : Result (Option PurchaseResult) × World (Unit {0})
sample_run =
    execute_purchase (service_ports one_checkout quiet_cache at_five) new_purchase_use_case
      "CHK-S-1" sample_world
