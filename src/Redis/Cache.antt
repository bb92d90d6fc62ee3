-- ===== src/Redis/Cache.antt =====
-- internal/infrastructure/persistence/redis/cache.go, and `redis_cache`, the implementation of the
-- port. Logging and metrics are left out.
use flashsale_service.Redis.BloomFilter.{RedisBloomFilter, add, contains}
use flashsale_service.Redis.Keys.{
  count_key, checkout_count_key, items_sold_key, checkout_key, code_key, checked_items_key,
  lock_name,
}
use flashsale_service.Redis.BloomFilter.{RedisBloomFilter}
use flashsale_service.Redis.Scripts.{
  purchase_script, user_limit_script, sale_limit_script, decrement_script, increment_script,
}
use flashsale_service.Redis.Client.{request, pipeline, Net, telling, exec_all, asking}
use flashsale_service.Redis.Server.{Redis, parsed}
use flashsale_service.Prelude.{
  String, Option, ℕ, ℤ, some, Bool, none, pos, ◌-ℤ◌, ◌∷◌, ◌=ℕ=◌, [], negsuc, false,
}
use flashsale_service.Ports.{Cache}
use flashsale_service.Effect.{◌>>=◌, M, pure, ok}

module _ {S : Type 0} (r : Redis S) (fnv sha : String → ℕ) (bf : RedisBloomFilter) where
  unfoldable pub add_item_to_bloom_filter : String → M (Net S) (Unit {0})
  unfolding add
  add_item_to_bloom_filter item_id = add r fnv sha bf item_id

  unfoldable pub item_exists_in_bloom_filter : String → M (Net S) Bool
  unfolding contains
  item_exists_in_bloom_filter item_id = contains r fnv sha bf item_id

module _ {S : Type 0} (r : Redis S) where
  -- GET and `strconv.Atoi`, with 0 for `redis.Nil`.
  unfoldable pub get_count : String → M (Net S) ℤ
  unfolding request
  get_count key = do text ← request (asking (r.get key)); λ n. (parsed r text, n)

  unfoldable pub increment : String → ℤ → M (Net S) (Unit {0})
  unfolding request
  increment key n = do _ ← request (r.incr_by key n); pure tt

  unfoldable pub set_count : String → ℤ → ℕ → M (Net S) (Unit {0})
  unfolding request
  set_count key count e = request (telling (r.set key (r.itoa count) (pos e)))

  unfoldable pub get_user_item_count : String → String → M (Net S) ℤ
  unfolding get_count
  get_user_item_count sale_id user_id = get_count (count_key sale_id user_id)

  unfoldable pub increment_user_item_count : String → String → M (Net S) (Unit {0})
  unfolding increment
  increment_user_item_count sale_id user_id = increment (count_key sale_id user_id) (pos 1)

  unfoldable pub get_user_checkout_count : String → String → M (Net S) ℤ
  unfolding get_count
  get_user_checkout_count sale_id user_id = get_count (checkout_count_key sale_id user_id)

  unfoldable pub increment_user_checkout_count : String → String → M (Net S) (Unit {0})
  unfolding increment
  increment_user_checkout_count sale_id user_id =
      increment (checkout_count_key sale_id user_id) (pos 1)

  unfoldable pub set_user_checkout_count : String → String → ℤ → ℕ → M (Net S) (Unit {0})
  unfolding set_count
  set_user_checkout_count sale_id user_id count e =
      set_count (checkout_count_key sale_id user_id) count e

  unfoldable pub get_available_checkout_slots : String → String → ℤ → M (Net S) ℤ
  unfolding get_user_item_count get_user_checkout_count
  get_available_checkout_slots sale_id user_id max_items = do
    purchased ← get_user_item_count sale_id user_id
    checked_out ← get_user_checkout_count sale_id user_id
    pure (max_items -ℤ purchased -ℤ checked_out)

  unfoldable pub set_user_item_count : String → String → ℤ → ℕ → M (Net S) (Unit {0})
  unfolding set_count
  set_user_item_count sale_id user_id count e = set_count (count_key sale_id user_id) count e

  abbrev pub or_empty : Option String → String
  or_empty none = ""
  or_empty (some text) = text

  unfoldable pub get_user_checkout_code : String → String → M (Net S) String
  unfolding request
  get_user_checkout_code sale_id user_id = do
    text ← request (asking (r.get (checkout_key sale_id user_id)))
    pure (or_empty text)

  unfoldable pub set_user_checkout_code : String → String → String → ℤ → M (Net S) (Unit {0})
  unfolding request
  set_user_checkout_code sale_id user_id code e =
      request (telling (r.set (checkout_key sale_id user_id) code e))

  unfoldable pub remove_user_checkout_code : String → String → M (Net S) (Unit {0})
  unfolding pipeline
  remove_user_checkout_code sale_id user_id = exec_all (
      telling (r.del (checkout_key sale_id user_id))
      ∷ telling (r.del (checkout_count_key sale_id user_id))
      ∷ [])

  unfoldable pub set_checkout_code : String → ℤ → M (Net S) (Unit {0})
  unfolding request
  set_checkout_code code e = request (telling (r.set (code_key code) "1" e))

  unfoldable pub checkout_code_exists : String → M (Net S) Bool
  unfolding request
  checkout_code_exists code = request (asking (λ s. ok (r.exists (code_key code) s)))

  unfoldable pub remove_checkout_code : String → M (Net S) (Unit {0})
  unfolding request
  remove_checkout_code code = request (telling (r.del (code_key code)))

  unfoldable pub has_user_checked_out_item : String → String → String → M (Net S) Bool
  unfolding request
  has_user_checked_out_item sale_id user_id item_id =
      request (asking (r.s_is_member (checked_items_key sale_id user_id) item_id))

  unfoldable pub add_user_checked_out_item : String → String → String → ℤ → M (Net S) (Unit {0})
  unfolding pipeline
  add_user_checked_out_item sale_id user_id item_id e = exec_all (
      r.s_add (checked_items_key sale_id user_id) item_id
      ∷ telling (r.expire (checked_items_key sale_id user_id) e)
      ∷ [])

  unfoldable pub increment_sale_items_sold : String → ℤ → M (Net S) (Unit {0})
  unfolding increment
  increment_sale_items_sold sale_id count = increment (items_sold_key sale_id) count

  unfoldable pub get_sale_items_sold : String → M (Net S) ℤ
  unfolding get_count
  get_sale_items_sold sale_id = get_count (items_sold_key sale_id)

  unfoldable pub get_sale_item_count : String → M (Net S) ℤ
  unfolding get_count
  get_sale_item_count sale_id = get_count (items_sold_key sale_id)

  -- `result.(int64) == 1`
  abbrev pub granted_by : M S ℤ → M (Net S) Bool
  granted_by script = do n ← request script; pure (elim n [ pos k ↦ k =ℕ= 1 | negsuc _ ↦ false ])

  unfoldable pub atomic_purchase_check : String → String → ℤ → ℤ → ℤ → M (Net S) Bool
  unfolding request purchase_script
  atomic_purchase_check sale_id user_id n max_sale max_user =
      granted_by
        (purchase_script r (items_sold_key sale_id) (count_key sale_id user_id) n max_sale max_user)

  unfoldable pub atomic_user_limit_check : String → String → ℤ → ℤ → M (Net S) Bool
  unfolding request user_limit_script
  atomic_user_limit_check sale_id user_id n max_items =
      granted_by (user_limit_script r (count_key sale_id user_id) n max_items)

  unfoldable pub atomic_sale_limit_check : String → ℤ → ℤ → M (Net S) Bool
  unfolding request sale_limit_script
  atomic_sale_limit_check sale_id n max_items =
      granted_by (sale_limit_script r (items_sold_key sale_id) n max_items)

  unfoldable pub distributed_lock : String → ℕ → M (Net S) Bool
  unfolding request
  distributed_lock key e =
      request (λ s. let (won, s') = r.set_nx (lock_name key) "1" e s in (ok won, s'))

  unfoldable pub release_lock : String → M (Net S) (Unit {0})
  unfolding request
  release_lock key = request (telling (r.del (lock_name key)))

  unfoldable pub decrement_counters : String → String → ℤ → M (Net S) (Unit {0})
  unfolding request decrement_script
  decrement_counters sale_id user_id n = do
    _ ← request (decrement_script r (items_sold_key sale_id) (count_key sale_id user_id) n)
    pure tt

  unfoldable pub increment_counters : String → String → ℤ → M (Net S) (Unit {0})
  unfolding request increment_script
  increment_counters sale_id user_id n = do
    _ ← request (increment_script r (items_sold_key sale_id) (count_key sale_id user_id) n)
    pure tt

module _ {S : Type 0} (r : Redis S) (fnv sha : String → ℕ) (bf : RedisBloomFilter) where
  abbrev pub redis_cache : Cache (Net S)
  redis_cache = record {
    add_item_to_bloom_filter = add_item_to_bloom_filter r fnv sha bf;
    item_exists_in_bloom_filter = item_exists_in_bloom_filter r fnv sha bf;
    get_user_item_count = get_user_item_count r;
    increment_user_item_count = increment_user_item_count r;
    set_user_item_count = set_user_item_count r;
    get_user_checkout_count = get_user_checkout_count r;
    increment_user_checkout_count = increment_user_checkout_count r;
    set_user_checkout_count = set_user_checkout_count r;
    get_available_checkout_slots = get_available_checkout_slots r;
    get_user_checkout_code = get_user_checkout_code r;
    set_user_checkout_code = set_user_checkout_code r;
    remove_user_checkout_code = remove_user_checkout_code r;
    set_checkout_code = set_checkout_code r;
    checkout_code_exists = checkout_code_exists r;
    remove_checkout_code = remove_checkout_code r;
    has_user_checked_out_item = has_user_checked_out_item r;
    add_user_checked_out_item = add_user_checked_out_item r;
    increment_sale_items_sold = increment_sale_items_sold r;
    get_sale_items_sold = get_sale_items_sold r;
    get_sale_item_count = get_sale_item_count r;
    increment_counters = increment_counters r;
    atomic_purchase_check = atomic_purchase_check r;
    atomic_user_limit_check = atomic_user_limit_check r;
    atomic_sale_limit_check = atomic_sale_limit_check r;
    decrement_counters = decrement_counters r;
    distributed_lock = distributed_lock r;
    release_lock = release_lock r;
  }
