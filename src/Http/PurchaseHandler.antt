-- ===== src/Http/PurchaseHandler.antt =====
-- internal/infrastructure/http/handlers/purchase.go and checkout.go. A parameter of the query that
-- is missing reads as the empty text; metrics and logging are left out.
use flashsale_service.Http.SaleHandler.{reply_with}
use flashsale_service.Effect.{M, ok, err}
use flashsale_service.Commands.Checkout.{handle_checkout, CheckoutResponse}
use flashsale_service.UseCases.Purchase.{PurchaseUseCase}
use flashsale_service.Ports.{Ports}
use flashsale_service.Commands.Purchase.{
  Handled, PurchaseResponse, handle_purchase, handled, panicked,
}
use flashsale_service.Errors.{DomainError}
use flashsale_service.Http.ErrorMapper.{write_domain_error}
use flashsale_service.Http.Response.{Reply, write_success, refused, write_validation_error, bare}
use flashsale_service.Prelude.{List, String, if◌then◌else◌, ◌==◌, ◌||◌, pos}
use flashsale_service.Http.Routes.{Method, get, post, other_method}

-- After a panic the recovery middleware replies with this text, under the key `error`.
unfoldable pub recover : {A : Type 0} → Reply A
recover = refused 500 "Internal server error"

unfoldable pub purchase_reply : List DomainError → Handled → Reply PurchaseResponse
unfolding write_success write_domain_error recover
purchase_reply keys (handled (ok r)) = write_success r
purchase_reply keys (handled (err e)) = write_domain_error keys e
purchase_reply keys panicked = recover

module _ {W : Type 0} (keys : List DomainError) (p : Ports W) where
  unfoldable pub post_purchase : PurchaseUseCase → String → W → Reply PurchaseResponse × W
  unfolding write_validation_error purchase_reply handle_purchase
  post_purchase uc code w =
      if code == ""
      then (write_validation_error "Validation failed", w)
      else (let (h, w') = handle_purchase p uc code w in (purchase_reply keys h, w'))

  unfoldable pub serve_purchase : PurchaseUseCase → Method → String → W → Reply PurchaseResponse × W
  unfolding post_purchase
  serve_purchase uc post code w = post_purchase uc code w
  serve_purchase uc get code w = (bare 405, w)
  serve_purchase uc other_method code w = (bare 405, w)

  unfoldable pub post_checkout :
      (String → String → M W String) → String → String → W → Reply CheckoutResponse × W
  unfolding write_validation_error write_success handle_checkout
  post_checkout generate user_id item_id w =
      if user_id == "" || item_id == ""
      then (write_validation_error "Validation failed", w)
      else reply_with keys (handle_checkout p generate (pos 10) user_id item_id)
          (λ r w'. (write_success r, w')) w

  unfoldable pub serve_checkout :
      (String → String → M W String) → Method → String → String → W → Reply CheckoutResponse × W
  unfolding post_checkout
  serve_checkout generate post user_id item_id w = post_checkout generate user_id item_id w
  serve_checkout generate get user_id item_id w = (bare 405, w)
  serve_checkout generate other_method user_id item_id w = (bare 405, w)
