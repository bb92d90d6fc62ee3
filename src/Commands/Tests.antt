-- ===== src/Commands/Tests.antt =====
-- The commands' theorems at concrete inputs.
use flashsale_service.Errors.{domain, checkout_not_found}
use flashsale_service.Ports.{CheckoutRepository}
use flashsale_service.UseCases.Purchase.{new_purchase_use_case}
use flashsale_service.Service.{World, service_ports, on_rest}
use flashsale_service.Commands.Checkout.{CheckoutResponse, handle_checkout}
use flashsale_service.Service.Samples.{
  one_checkout, quiet_cache, at_five, sample_tables, sample_world, sample-IsConsistent,
}
use flashsale_service.Effect.{Result, M, pure, raise}
use flashsale_service.Commands.Purchase.{TellsTruth, handle_purchase, handle_purchase-TellsTruth}
use flashsale_service.Commands.Checkout.Granted.{Checked, handle_checkout-Checked}
use flashsale_service.Prelude.{String, pos}

abbrev fixed_code : String → String → M (Unit {0}) String
fixed_code sale_id user_id = pure "CHK-S-1-00"

abbrev no_checkout : CheckoutRepository (Unit {0})
no_checkout = record one_checkout { get_checkout_by_code = λ c. raise (domain checkout_not_found) }

handle_checkout-Checked_example :
    Checked no_checkout quiet_cache at_five fixed_code (pos 10) sample_world "b" (
      handle_checkout
        (service_ports no_checkout quiet_cache at_five)
        (λ s u. on_rest (fixed_code s u))
        (pos 10)
        "eve"
        "b"
        sample_world)
handle_checkout-Checked_example =
    handle_checkout-Checked no_checkout quiet_cache at_five fixed_code (pos 10) "eve" "b"
      sample_world

handle_purchase-TellsTruth_example : TellsTruth one_checkout quiet_cache at_five sample_tables (
    handle_purchase
      (service_ports one_checkout quiet_cache at_five)
      new_purchase_use_case
      "CHK-S-1"
      sample_world)
handle_purchase-TellsTruth_example =
    handle_purchase-TellsTruth one_checkout quiet_cache at_five "CHK-S-1" sample_world
      sample-IsConsistent

-- Eve is granted item `b`, as the first of her checkout.
checkout_run : Result CheckoutResponse × World (Unit {0})
checkout_run =
    handle_checkout (service_ports no_checkout quiet_cache at_five)
      (λ s u. on_rest (fixed_code s u)) (pos 10) "eve" "b" sample_world
