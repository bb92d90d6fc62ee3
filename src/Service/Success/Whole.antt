-- ===== src/Service/Success/Whole.antt =====
-- `attemptPurchase`, the retry loop and `ExecutePurchase`.
use flashsale_service.Prelude.{◌∷◌, List}
use flashsale_service.Effect.Triple.{Triple}
use flashsale_service.Domain.Checkout.{Checkout}
use flashsale_service.Domain.Item.{Item}
use flashsale_service.Domain.Sale.{Sale}
use flashsale_service.Domain.PurchaseService.{PurchaseResult, calculate_purchase_result}
use flashsale_service.Ports.{CheckoutRepository, Cache, Clock, Ports}
use flashsale_service.Postgres.Store.{Tables, Store}
use flashsale_service.Postgres.Sure.{AllUp}
use flashsale_service.Service.{World}
use flashsale_service.Service.Success.Rows.{ids_of}
use flashsale_service.Service.Success.{Both}
use flashsale_service.Service.Success.Run.{Ready, world}
use flashsale_service.UseCases.Purchase.{PurchaseUseCase}

module _ {C : Type 0} (checkouts : CheckoutRepository C) (cache : Cache C) (clock : Clock C)
    (uc : PurchaseUseCase) (outside : C → Type 0) (inside : List Item → C → Type 0) (t : Tables)
    (c : Checkout) (s : Sale) (i : Item) (is : List Item)
    (ready : Ready checkouts cache clock uc outside inside t c s (i ∷ is)) where
  abbrev system : Ports (World C)
  system = world checkouts cache clock uc

  abbrev result : PurchaseResult
  result = calculate_purchase_result (i ∷ is) (ids_of (i ∷ is))

  -- Before the lock, and behind it.
  abbrev Outside : World C → Type 0
  Outside = Both checkouts cache clock uc (AllUp t) outside

  abbrev Start : World C → Type 0
  Start = Both checkouts cache clock uc (AllUp t) (inside (i ∷ is))
