-- ===== src/Service/Samples.antt =====
-- Concrete tables, and parts of the world that do little, for runs and examples.
use flashsale_service.Postgres.Stock.Books.{IsConsistent}
use flashsale_service.Postgres.Stock.{sold_in}
use flashsale_service.Domain.Item.{Item}
use flashsale_service.Effect.{pure}
use flashsale_service.Postgres.Query.{has_item_row, find_sale}
use flashsale_service.Service.{World}
use flashsale_service.Domain.Checkout.{Checkout}
use flashsale_service.Ports.{Cache, CheckoutRepository, Clock}
use flashsale_service.Prelude.{
  String, ◌∷◌, Bool, pos, false, [], true, if◌then◌else◌, none, arith, eq_iff,
}
use flashsale_service.Postgres.Store.{answered, closed, Tables}

-- A cache that grants the lock and knows of nothing sold.
abbrev pub quiet_cache : Cache (Unit {0})
quiet_cache = record {
  add_item_to_bloom_filter = λ i. pure tt;
  item_exists_in_bloom_filter = λ i. pure false;
  get_user_item_count = λ s u. pure (pos 0);
  increment_user_item_count = λ s u. pure tt;
  set_user_item_count = λ s u n e. pure tt;
  get_user_checkout_count = λ s u. pure (pos 0);
  increment_user_checkout_count = λ s u. pure tt;
  set_user_checkout_count = λ s u n e. pure tt;
  get_available_checkout_slots = λ s u n. pure n;
  get_user_checkout_code = λ s u. pure "";
  set_user_checkout_code = λ s u c e. pure tt;
  remove_user_checkout_code = λ s u. pure tt;
  set_checkout_code = λ c e. pure tt;
  checkout_code_exists = λ c. pure true;
  remove_checkout_code = λ c. pure tt;
  has_user_checked_out_item = λ s u i. pure false;
  add_user_checked_out_item = λ s u i e. pure tt;
  increment_sale_items_sold = λ s n. pure tt;
  get_sale_items_sold = λ s. pure (pos 0);
  get_sale_item_count = λ s. pure (pos 0);
  increment_counters = λ s u n. pure tt;
  atomic_purchase_check = λ s u n a b. pure true;
  atomic_user_limit_check = λ s u n a. pure true;
  atomic_sale_limit_check = λ s n a. pure true;
  decrement_counters = λ s u n. pure tt;
  distributed_lock = λ k e. pure true;
  release_lock = λ k. pure tt;
}

abbrev pub sample_checkout : Checkout
sample_checkout = record {
  code = "CHK-S-1";
  sale_id = "S-1";
  user_id = "ann";
  item_ids = "a" ∷ "b" ∷ [];
  created_at = 3;
}

abbrev pub one_checkout : CheckoutRepository (Unit {0})
one_checkout = record {
  get_checkout_by_code = λ c. pure sample_checkout;
  create_checkout = λ c. pure tt;
  add_item_to_checkout = λ c i. pure tt;
  get_user_checkout_count = λ s u. pure (pos 1);
  delete_checkout = λ c. pure tt;
  log_checkout_attempt = λ s u c i. pure tt;
}

abbrev pub at_five : Clock (Unit {0})
at_five = record { now = λ w. 5; sleep = λ n w. w }

abbrev pub item_of : String → Bool → Item
item_of id sold = record {
  id = id;
  sale_id = "S-1";
  name = id;
  image_url = "";
  sold = sold;
  sold_to_user_id = if sold then "bob" else "";
  sold_at = none;
  created_at = 1;
}

-- Item `a` is sold to bob, `b` is free.
abbrev pub sample_tables : Tables
sample_tables = record {
  sales =
      (record {
        id = "S-1";
        started_at = 1;
        ended_at = 9;
        total_items = pos 2;
        items_sold = pos 1;
        created_at = 1;
      })
      ∷ [];
  items = item_of "a" true ∷ item_of "b" false ∷ [];
  purchase_results = [];
  attempts = [];
  entries = [];
  purchases = [];
}

abbrev pub sample_world : World (Unit {0})
sample_world = record {
  store = record {
    tables = sample_tables;
    txs = λ n. closed;
    next_tx = 0;
    answers = λ n. answered;
    tick = 0;
    clock = 5;
  };
  rest = tt;
}

pub sample-IsConsistent : IsConsistent sample_tables
unfolding has_item_row find_sale sold_in
sample-IsConsistent = record {
  unique = ground arith;
  agree = λ id s found. ground (arith, eq_iff "S-1" id);
}
