-- ===== src/Commands/Purchase.antt =====
-- internal/application/commands/purchase_command.go over the purchase use case.
use flashsale_service.Service.Stock.{execute_purchase-Told}
use flashsale_service.Service.Retry.{Told}
use flashsale_service.Postgres.Stock.Books.{IsConsistent, SoldMore}
use flashsale_service.Service.{World, service_ports}
use flashsale_service.Postgres.Store.{Tables}
use flashsale_service.UseCases.Purchase.{PurchaseUseCase, execute_purchase, new_purchase_use_case}
use flashsale_service.Ports.{Ports, CheckoutRepository, Cache, Clock}
use flashsale_service.Domain.PurchaseService.{PurchaseResult, PurchaseItemResult}
use flashsale_service.Effect.{Result, ok, err}
use flashsale_service.Prelude.{
  ◌≡◌, Bool, List, Option, String, ℤ, some, ℕ, ◌≢◌, ◌≤◌, none, pos, arith,
}

pub record PurchaseResponse : Type 0 where
  pub success : Bool
  pub purchased_items : List PurchaseItemResult
  pub total_purchased : ℤ
  pub failed_count : ℤ

-- `panicked`: the fields of the result `nil` are read.
pub data Handled : Type 0 where
  handled : Result PurchaseResponse → Handled
  panicked : Handled

unfoldable pub response_of : PurchaseResult → PurchaseResponse
response_of r = record {
  success = r.success;
  purchased_items = r.items;
  total_purchased = r.total_purchased;
  failed_count = r.failed_count;
}

unfoldable pub handled_of : Result (Option PurchaseResult) → Handled
unfolding response_of
handled_of (ok (some r)) = handled (ok (response_of r))
handled_of (ok none) = panicked
handled_of (err e) = handled (err e)

unfoldable pub handle_purchase : {W : Type 0} → Ports W → PurchaseUseCase → String → W → Handled × W
unfolding handled_of
handle_purchase p uc code w = let (r, w') = execute_purchase p uc code w in (handled_of r, w')

module _ {C : Type 0} (checkouts : CheckoutRepository C) (cache : Cache C) (clock : Clock C) where
  -- A response counts the items that some sale sold more, at least one of them; the program does
  -- not read the fields of `nil`.
  abbrev pub TellsTruth : Tables → Handled × World C → Type 0
  TellsTruth t (handled (ok r), w) =
      (sale_id : String) × (k : ℕ) × (1 ≤ k)
      × (r.total_purchased ≡ pos k)
      × SoldMore sale_id k t.items w.store.tables.items
  TellsTruth t (handled (err _), w) = Unit
  TellsTruth t (panicked, w) = ⊥

  Told-TellsTruth :
      (t : Tables) (uc : PurchaseUseCase) (x : Result (Option PurchaseResult) × World C)
      → (uc.retry_attempts ≢ 0)
      → Told uc t x.0 x.1.store.tables
      → TellsTruth t (handled_of x.0, x.1)
  unfolding handled_of response_of
  Told-TellsTruth t uc (ok (some r), w) some_left (c, (k, rec, total, one)) =
      (c.sale_id, k, one, total, rec.counts)
  Told-TellsTruth t uc (ok none, w) some_left (no_attempt, _) = some_left no_attempt
  Told-TellsTruth t uc (err e, w) some_left h = tt

  -- The use case as `NewPurchaseUseCase` builds it, from tables whose books agree: the command
  -- never reads a result that is `nil`, and a response counts the items that were sold, one at
  -- least.
  pub handle_purchase-TellsTruth :
      (code : String) (w : World C)
      → IsConsistent w.store.tables
      → TellsTruth w.store.tables
          (handle_purchase (service_ports checkouts cache clock) new_purchase_use_case code w)
  unfolding handle_purchase
  handle_purchase-TellsTruth code w consistent =
      Told-TellsTruth w.store.tables new_purchase_use_case
        (execute_purchase (service_ports checkouts cache clock) new_purchase_use_case code w)
        (omega arith)
        (execute_purchase-Told checkouts cache clock new_purchase_use_case code w consistent)
