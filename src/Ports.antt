-- ===== src/Ports.antt =====
-- internal/application/ports: what the use cases ask of the repositories and of the cache. `W` is
-- the world that the operations act on. An interface value is a record of its methods; a
-- repository inside a transaction is another value of `Repo`, which `begin_tx` returns.
use flashsale_service.Prelude.{ℕ, String, ℤ, Bool, List, Option}
use flashsale_service.Effect.{M}
use flashsale_service.Domain.Sale.{Sale}
use flashsale_service.Domain.Item.{Item}
use flashsale_service.Domain.Checkout.{Checkout}
use flashsale_service.Domain.PurchaseService.{PurchaseResult}

pub record SaleRepository (W : Type 0) : Type 1 where
  pub Repo : Type 0
  pub get_active_sale : Repo → M W Sale
  pub get_sale_by_id : Repo → String → M W Sale
  pub create_sale : Repo → Sale → M W (Unit {0})
  pub update_sale : Repo → Sale → M W (Unit {0})
  pub get_item_by_id : Repo → String → M W Item
  pub get_items_by_sale_id : Repo → String → ℕ → ℕ → M W (List Item)
  pub get_available_items_by_sale_id : Repo → String → ℕ → ℕ → M W (List Item)
  pub create_item : Repo → Item → M W (Unit {0})
  pub create_items : Repo → List Item → M W (Unit {0})
  pub mark_item_as_sold : Repo → String → String → M W Bool
  pub save_purchase_result : Repo → String → PurchaseResult → M W (Unit {0})
  pub get_purchase_result : Repo → String → M W (Option PurchaseResult)
  pub begin_tx : Repo → M W Repo
  pub commit_tx : Repo → M W (Unit {0})
  pub rollback_tx : Repo → M W (Unit {0})

pub record CheckoutRepository (W : Type 0) : Type 0 where
  pub get_checkout_by_code : String → M W Checkout
  pub create_checkout : Checkout → M W (Unit {0})
  pub add_item_to_checkout : String → String → M W (Unit {0})
  pub get_user_checkout_count : String → String → M W ℤ
  pub delete_checkout : String → M W (Unit {0})
  pub log_checkout_attempt : String → String → String → String → M W (Unit {0})

-- Durations are numbers of nanoseconds.
pub record Cache (W : Type 0) : Type 0 where
  pub add_item_to_bloom_filter : String → M W (Unit {0})
  pub item_exists_in_bloom_filter : String → M W Bool
  pub get_user_item_count : String → String → M W ℤ
  pub increment_user_item_count : String → String → M W (Unit {0})
  pub set_user_item_count : String → String → ℤ → ℕ → M W (Unit {0})
  pub get_user_checkout_count : String → String → M W ℤ
  pub increment_user_checkout_count : String → String → M W (Unit {0})
  pub set_user_checkout_count : String → String → ℤ → ℕ → M W (Unit {0})
  pub get_available_checkout_slots : String → String → ℤ → M W ℤ
  pub get_user_checkout_code : String → String → M W String
  pub set_user_checkout_code : String → String → String → ℤ → M W (Unit {0})
  pub remove_user_checkout_code : String → String → M W (Unit {0})
  pub set_checkout_code : String → ℤ → M W (Unit {0})
  pub checkout_code_exists : String → M W Bool
  pub remove_checkout_code : String → M W (Unit {0})
  pub has_user_checked_out_item : String → String → String → M W Bool
  pub add_user_checked_out_item : String → String → String → ℤ → M W (Unit {0})
  pub increment_sale_items_sold : String → ℤ → M W (Unit {0})
  pub get_sale_items_sold : String → M W ℤ
  pub get_sale_item_count : String → M W ℤ
  pub increment_counters : String → String → ℤ → M W (Unit {0})
  pub atomic_purchase_check : String → String → ℤ → ℤ → ℤ → M W Bool
  pub atomic_user_limit_check : String → String → ℤ → ℤ → M W Bool
  pub atomic_sale_limit_check : String → ℤ → ℤ → M W Bool
  pub decrement_counters : String → String → ℤ → M W (Unit {0})
  pub distributed_lock : String → ℕ → M W Bool
  pub release_lock : String → M W (Unit {0})

-- The clock: `time.Now()` reads it, and time passes in `time.Sleep`.
pub record Clock (W : Type 0) : Type 0 where
  pub now : W → ℕ
  pub sleep : ℕ → W → W

-- What a use case is built from: its fields `saleRepo`, `checkoutRepo` and `cache`.
pub record Ports (W : Type 0) : Type 1 where
  pub sales : SaleRepository W
  pub sale_repo : sales.Repo
  pub checkouts : CheckoutRepository W
  pub cache : Cache W
  pub clock : Clock W
