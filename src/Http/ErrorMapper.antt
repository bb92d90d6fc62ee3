-- ===== src/Http/ErrorMapper.antt =====
-- internal/infrastructure/http/response/error_mapper.go.
use flashsale_service.Errors.Chain.{root, root-errors_is, errors_is-root}
use flashsale_service.Http.Response.{Reply, refused}
use flashsale_service.Errors.{
  DomainError, Error, sale_not_found, sale_not_active, errors_is, sale_out_of_stock,
  sale_limit_exceeded, no_items_to_purchase, item_not_found, item_already_sold, item_not_in_sale,
  all_items_sold, checkout_not_found, checkout_expired, item_already_in_checkout,
  user_already_checked_out_item, user_limit_exceeded, checkout_already_processed,
  transaction_failed,
}
use flashsale_service.Prelude.{
  ◌≡◌, refl, ℕ, String, List, Option, ◌∷◌, some, if◌then◌else◌, ◌⊎◌, none, Bool-cases, Option-cases,
  [], inl, inr, arith,
}

pub data Status : Type 0 where
  status_error status_not_found status_conflict status_internal_error : Status

pub record ErrorMapping : Type 0 where
  pub http_status : ℕ
  pub status : Status
  pub text : String

abbrev not_found : String → ErrorMapping
not_found text = record { http_status = 404; status = status_not_found; text = text }

abbrev bad_request : String → ErrorMapping
bad_request text = record { http_status = 400; status = status_error; text = text }

abbrev conflict : String → ErrorMapping
conflict text = record { http_status = 409; status = status_conflict; text = text }

-- The map: every value of errors.go has an entry.
unfoldable pub error_mappings : DomainError → ErrorMapping
error_mappings sale_not_found = not_found "Sale not found"
error_mappings sale_not_active = bad_request "Sale is not active"
error_mappings sale_out_of_stock = bad_request "Sale is out of stock"
error_mappings sale_limit_exceeded = bad_request "Purchase would exceed sale limit"
error_mappings no_items_to_purchase = bad_request "No items to purchase"
error_mappings item_not_found = not_found "Item not found"
error_mappings item_already_sold = conflict "Items already sold"
error_mappings item_not_in_sale = bad_request "Item not in current sale"
error_mappings all_items_sold = conflict "All items from checkout already sold"
error_mappings checkout_not_found = not_found "Checkout not found"
error_mappings checkout_expired = bad_request "Checkout expired"
error_mappings item_already_in_checkout = bad_request "Item already in checkout"
error_mappings user_already_checked_out_item = bad_request "User already checked out this item"
error_mappings user_limit_exceeded = bad_request "User has reached maximum items limit"
error_mappings checkout_already_processed = conflict "Checkout code has already been processed"
error_mappings transaction_failed = record {
  http_status = 500;
  status = status_internal_error;
  text = "Transaction failed";
}

abbrev pub internal_error : ErrorMapping
internal_error = record {
  http_status = 500;
  status = status_internal_error;
  text = "Internal server error";
}

-- The loop of `MapDomainError`; of the entry's status and the error's text, which it passes to
-- `Error`, no reply shows anything. Go visits the keys of a map in an order that it chooses anew each
-- time: `keys` is that order.
unfoldable pub map_domain_error : List DomainError → Error → ErrorMapping
map_domain_error [] e = internal_error
map_domain_error (key ∷ keys) e =
    if errors_is e key then error_mappings key else map_domain_error keys e

unfoldable pub write_domain_error : {A : Type 0} → List DomainError → Error → Reply A
unfolding map_domain_error
write_domain_error keys e = let m = map_domain_error keys e in refused m.http_status m.text

abbrev pub Listed : DomainError → List DomainError → Type 0
Listed d [] = ⊥
Listed d (key ∷ keys) = (key ≡ d) ⊎ Listed d keys

-- An order visits every key.
abbrev pub VisitsAll : List DomainError → Type 0
VisitsAll keys = (d : DomainError) → Listed d keys

-- What the mapping should be: by the one value of errors.go that the error is made from.
abbrev pub mapping_of_root : Option DomainError → ErrorMapping
mapping_of_root none = internal_error
mapping_of_root (some d) = error_mappings d

found_key :
    (keys : List DomainError) (e : Error) (d : DomainError)
    → root e ≡ some d
    → Listed d keys
    → map_domain_error keys e ≡ error_mappings d
unfolding map_domain_error
found_key [] e d h l = absurd l
found_key (key ∷ keys) e d h l = elim (Bool-cases (errors_is e key)) [
  | inl is_key ↦ rw is_key (grind (arith, root-errors_is e key))
  | inr other ↦ rw other (elim l [
    | inl same ↦ grind (arith, errors_is-root e key)
    | inr later ↦ found_key keys e d h later
  ])
]

no_key :
    (keys : List DomainError) (e : Error) → root e ≡ none → map_domain_error keys e ≡ internal_error
unfolding map_domain_error
no_key [] e h = refl
no_key (key ∷ keys) e h = elim (Bool-cases (errors_is e key)) [
  | inl is_key ↦ grind (arith, root-errors_is e key)
  | inr other ↦ rw other (no_key keys e h)
]

-- In whatever order the map is visited, the mapping is the entry of the one value of errors.go at
-- the end of the error's chain, and an internal error when there is none.
pub map_domain_error_lem :
    (keys : List DomainError) (e : Error)
    → VisitsAll keys
    → map_domain_error keys e ≡ mapping_of_root (root e)
map_domain_error_lem keys e all = elim (Option-cases (root e)) [
  | inl h ↦ rw h (no_key keys e h)
  | inr (d, h) ↦ rw h (found_key keys e d h (all d))
]
