-- ===== src/Service.antt =====
-- internal/infrastructure/http/server/server.go, `NewServer`: the purchase use case over the sale
-- repository on PostgreSQL. The cache, the checkout repository and the clock are any
-- implementations; they act on their own part of the world.
pub mod Rules
pub mod Purchase
pub mod Commit
pub mod Validate
pub mod Attempt
pub mod Retry
pub mod Stock
pub mod Success
pub mod Samples
mod Tests
use flashsale_service.Prelude.{ℕ, String, Option}
use flashsale_service.Effect.{Result, M}
use flashsale_service.Domain.PurchaseService.{PurchaseResult}
use flashsale_service.Ports.{Ports, SaleRepository, CheckoutRepository, Cache, Clock}
use flashsale_service.Postgres.Store.{Store, pool}
use flashsale_service.Postgres.SaleRepository.{sale_repository}
use flashsale_service.UseCases.Purchase.{PurchaseUseCase, execute_purchase, new_purchase_use_case}

pub record World (C : Type 0) : Type 0 where
  pub store : Store
  pub rest : C

module _ {C A : Type 0} where
  abbrev pub on_store : M Store A → M (World C) A
  on_store m w = let (r, s) = m w.store in (r, record w { store = s })

  abbrev pub on_rest : M C A → M (World C) A
  on_rest m w = let (r, c) = m w.rest in (r, record w { rest = c })

module _ {C : Type 0} where
  abbrev pub sales_on_store : SaleRepository Store → SaleRepository (World C)
  sales_on_store p = record {
    Repo = p.Repo;
    get_active_sale = λ r. on_store (p.get_active_sale r);
    get_sale_by_id = λ r id. on_store (p.get_sale_by_id r id);
    create_sale = λ r s. on_store (p.create_sale r s);
    update_sale = λ r s. on_store (p.update_sale r s);
    get_item_by_id = λ r id. on_store (p.get_item_by_id r id);
    get_items_by_sale_id = λ r id n m. on_store (p.get_items_by_sale_id r id n m);
    get_available_items_by_sale_id =
        λ r id n m. on_store (p.get_available_items_by_sale_id r id n m);
    create_item = λ r i. on_store (p.create_item r i);
    create_items = λ r is. on_store (p.create_items r is);
    mark_item_as_sold = λ r id u. on_store (p.mark_item_as_sold r id u);
    save_purchase_result = λ r c x. on_store (p.save_purchase_result r c x);
    get_purchase_result = λ r c. on_store (p.get_purchase_result r c);
    begin_tx = λ r. on_store (p.begin_tx r);
    commit_tx = λ r. on_store (p.commit_tx r);
    rollback_tx = λ r. on_store (p.rollback_tx r);
  }

  abbrev pub checkouts_on_rest : CheckoutRepository C → CheckoutRepository (World C)
  checkouts_on_rest p = record {
    get_checkout_by_code = λ c. on_rest (p.get_checkout_by_code c);
    create_checkout = λ c. on_rest (p.create_checkout c);
    add_item_to_checkout = λ c i. on_rest (p.add_item_to_checkout c i);
    get_user_checkout_count = λ s u. on_rest (p.get_user_checkout_count s u);
    delete_checkout = λ c. on_rest (p.delete_checkout c);
    log_checkout_attempt = λ s u c i. on_rest (p.log_checkout_attempt s u c i);
  }

  abbrev pub cache_on_rest : Cache C → Cache (World C)
  cache_on_rest p = record {
    add_item_to_bloom_filter = λ i. on_rest (p.add_item_to_bloom_filter i);
    item_exists_in_bloom_filter = λ i. on_rest (p.item_exists_in_bloom_filter i);
    get_user_item_count = λ s u. on_rest (p.get_user_item_count s u);
    increment_user_item_count = λ s u. on_rest (p.increment_user_item_count s u);
    set_user_item_count = λ s u n e. on_rest (p.set_user_item_count s u n e);
    get_user_checkout_count = λ s u. on_rest (p.get_user_checkout_count s u);
    increment_user_checkout_count = λ s u. on_rest (p.increment_user_checkout_count s u);
    set_user_checkout_count = λ s u n e. on_rest (p.set_user_checkout_count s u n e);
    get_available_checkout_slots = λ s u n. on_rest (p.get_available_checkout_slots s u n);
    get_user_checkout_code = λ s u. on_rest (p.get_user_checkout_code s u);
    set_user_checkout_code = λ s u c e. on_rest (p.set_user_checkout_code s u c e);
    remove_user_checkout_code = λ s u. on_rest (p.remove_user_checkout_code s u);
    set_checkout_code = λ c e. on_rest (p.set_checkout_code c e);
    checkout_code_exists = λ c. on_rest (p.checkout_code_exists c);
    remove_checkout_code = λ c. on_rest (p.remove_checkout_code c);
    has_user_checked_out_item = λ s u i. on_rest (p.has_user_checked_out_item s u i);
    add_user_checked_out_item = λ s u i e. on_rest (p.add_user_checked_out_item s u i e);
    increment_sale_items_sold = λ s n. on_rest (p.increment_sale_items_sold s n);
    get_sale_items_sold = λ s. on_rest (p.get_sale_items_sold s);
    get_sale_item_count = λ s. on_rest (p.get_sale_item_count s);
    increment_counters = λ s u n. on_rest (p.increment_counters s u n);
    atomic_purchase_check = λ s u n a b. on_rest (p.atomic_purchase_check s u n a b);
    atomic_user_limit_check = λ s u n a. on_rest (p.atomic_user_limit_check s u n a);
    atomic_sale_limit_check = λ s n a. on_rest (p.atomic_sale_limit_check s n a);
    decrement_counters = λ s u n. on_rest (p.decrement_counters s u n);
    distributed_lock = λ k e. on_rest (p.distributed_lock k e);
    release_lock = λ k. on_rest (p.release_lock k);
  }

  abbrev pub clock_on_rest : Clock C → Clock (World C)
  clock_on_rest c = record {
    now = λ w. c.now w.rest;
    sleep = λ n w. record w { rest = c.sleep n w.rest };
  }

  abbrev pub service_ports : CheckoutRepository C → Cache C → Clock C → Ports (World C)
  service_ports checkouts cache clock = record {
    sales = sales_on_store sale_repository;
    sale_repo = pool;
    checkouts = checkouts_on_rest checkouts;
    cache = cache_on_rest cache;
    clock = clock_on_rest clock;
  }
