-- ===== src/Errors.antt =====
-- internal/domain/errors/errors.go, and the errors that the rest of the program builds on them.
pub mod Chain
use flashsale_service.Prelude.{String, Bool, true, false, ◌≡◌}

-- The values of errors.go, without their prefix `Err`.
pub data DomainError : Type 0 where
  sale_not_found sale_not_active sale_out_of_stock sale_limit_exceeded : DomainError
  no_items_to_purchase item_not_found item_already_sold item_not_in_sale : DomainError
  all_items_sold checkout_not_found checkout_expired item_already_in_checkout : DomainError
  user_already_checked_out_item user_limit_exceeded checkout_already_processed : DomainError
  transaction_failed : DomainError

-- Go's `error`: one of those values, a fresh `errors.New` or `fmt.Errorf` without `%w`, a
-- `fmt.Errorf` with `%w` around another error, or what a driver reports.
pub data Error : Type 0 where
  domain : DomainError → Error
  message : String → Error
  wrapped : String → Error → Error
  external : String → Error

pub DomainError-discrete : Discrete DomainError
DomainError-discrete = hlevel

-- `err == target`, for a target of errors.go: a wrapped error is another value.
unfoldable pub is_domain : DomainError → Error → Bool
is_domain t (domain d) = elim (DomainError-discrete d t) [ yes _ ↦ true | no _ ↦ false ]
is_domain t (message _) = false
is_domain t (wrapped _ _) = false
is_domain t (external _) = false

-- `errors.Is(err, target)` follows the chain of wrapped errors.
unfoldable pub errors_is : Error → DomainError → Bool
errors_is (domain d) t = elim (DomainError-discrete d t) [ yes _ ↦ true | no _ ↦ false ]
errors_is (wrapped _ e) t = errors_is e t
errors_is (message _) t = false
errors_is (external _) t = false
