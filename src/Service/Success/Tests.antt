-- ===== src/Service/Success/Tests.antt =====
-- A purchase that succeeds, over the cache on the server in memory.
use flashsale_service.Redis.Client.{asking, Net}
use flashsale_service.Effect.{pure, M}
use flashsale_service.Service.{World}
use flashsale_service.Effect.Triple.{Triple}
use flashsale_service.Redis.BloomFilter.{RedisBloomFilter}
use flashsale_service.Redis.Cache.{redis_cache}
use flashsale_service.Redis.Keys.{lock_name}
use flashsale_service.Effect.Answer.{answered}
use flashsale_service.Ports.{Cache, CheckoutRepository, Clock}
use flashsale_service.Domain.Checkout.{Checkout}
use flashsale_service.Domain.Item.{Item}
use flashsale_service.Domain.Sale.{Sale}
use flashsale_service.Redis.Memory.{memory, Data, empty_data}
use flashsale_service.Service.Samples.{item_of, sample_checkout, sample_world}
use flashsale_service.UseCases.Purchase.{lock_key}
use flashsale_service.Prelude.{
  ◌≡◌, ◌∷◌, [], List, String, ℕ, pos, some, if◌then◌else◌, ◌==◌, false, none, Bool,
}

-- A checkout of the free item.
abbrev free_item : Item
free_item = item_of "b" false

abbrev free_checkout : Checkout
free_checkout = record sample_checkout { item_ids = "b" ∷ [] }

abbrev free_checkouts : CheckoutRepository (Net Data)
free_checkouts = record {
  get_checkout_by_code = λ c. pure free_checkout;
  create_checkout = λ c. pure tt;
  add_item_to_checkout = λ c i. pure tt;
  get_user_checkout_count = λ s u. pure (pos 1);
  delete_checkout = λ c. pure tt;
  log_checkout_attempt = λ s u c i. pure tt;
}

abbrev at_five : Clock (Net Data)
at_five = record { now = λ w. 5; sleep = λ n w. w }

abbrev sale_row : Sale
sale_row = record {
  id = "S-1";
  started_at = 1;
  ended_at = 9;
  total_items = pos 2;
  items_sold = pos 1;
  created_at = 1;
}

abbrev length_of : String → ℕ
length_of text = if text == "b" then 11 else 7

abbrev filter : RedisBloomFilter
filter = record { key = "bloom:sold_items"; m = 64; k = 1 }

abbrev cache : Cache (Net Data)
cache = redis_cache memory length_of length_of filter

-- The code is known, nothing is sold, and the lock is free; and the same with the lock taken.
abbrev known_data : Data
known_data = record empty_data { texts = λ k. if k == "checkout:CHK-S-1" then some "1" else none }

abbrev locked_data : Data
locked_data = (memory.set_nx (lock_name (lock_key "CHK-S-1")) "1" 3000000000 known_data).1

abbrev Holds : Data → Net Data → Type 0
Holds d n = (n.data_of ≡ d) × ((t : ℕ) → n.answers t ≡ answered)

abbrev Inside : List Item → Net Data → Type 0
Inside [] n = Unit
Inside (i ∷ is) n = (is ≡ []) × Holds locked_data n

asked_bit : (p : ℕ) → M Data Bool
asked_bit p = asking (memory.get_bit "bloom:sold_items" p)

abbrev start : World (Net Data)
start = record {
  store = sample_world.store;
  rest = record { data_of = known_data; answers = λ _. answered; tick = 0 };
}
