-- ===== src/Redis/Tests.antt =====
-- The cache over the server in memory, at concrete inputs.
use flashsale_service.Redis.Cache.{
  distributed_lock, set_user_checkout_code, increment_counters, decrement_counters,
  get_user_checkout_code,
}
use flashsale_service.Prelude.{
  ℕ, String, ◌∷◌, pos, ◌≡◌, ◌≢◌, if◌then◌else◌, [], arith, false, refl, ◌==◌, true, ◌=ℕ=◌, eq_iff,
  ◌+ℤ◌, ◌≤◌, ◌≤ℤ◌, ◌^◌, int_laws, +ℤ_parts,
}
use flashsale_service.Effect.{ok, ◌>>◌}
use flashsale_service.Effect.Answer.{answered, reply_lost, Answer}
use flashsale_service.Redis.Memory.{memory, memory-IsRedis, Data, empty_data}
use flashsale_service.Redis.BloomFilter.{RedisBloomFilter, add, contains, new_redis_bloom_filter}
use flashsale_service.Redis.BloomFilter.Membership.{SaysTrue, contains-add, add_each}
use flashsale_service.Redis.Limits.Checks.{Check, WithinLimits, run_checks, run_checks-WithinLimits}
use flashsale_service.Redis.Lock.{Clients, Reach, enter, start, later, update}
use flashsale_service.Redis.Lock.Exclusion.{mutual_exclusion, Empty}
use flashsale_service.Redis.Codes.{Given, set_codes, get_user_checkout_code-set_user_checkout_code}
use flashsale_service.Redis.Counters.{decrement_counters-increment_counters}
use flashsale_service.Redis.Keys.{items_sold_key, count_key}
use flashsale_service.Redis.Server.{counter}
use flashsale_service.Redis.Client.{Net, sending, received}

abbrev up : Net Data
up = record { data_of = empty_data; answers = λ _. answered; tick = 0 }

-- The third request's answer is lost.
abbrev shaky : ℕ → Answer
shaky t = if t =ℕ= 2 then reply_lost else answered

abbrev sum_of : String → ℕ
sum_of text = if text == "item-1" then 11 else 18446744073709551615

abbrev filter : RedisBloomFilter
filter = new_redis_bloom_filter "bloom:sold_items" 64 3

contains-add_example : SaysTrue memory memory-IsRedis sum_of sum_of filter (
    (add memory sum_of sum_of filter "item-1"
        >> (add_each memory memory-IsRedis sum_of sum_of filter ("item-2" ∷ [])
            >> contains memory sum_of sum_of filter "item-1"))
      up)
contains-add_example =
    contains-add memory memory-IsRedis sum_of sum_of filter "item-1" ("item-2" ∷ []) up

abbrev alice : Check
alice = record { user_id = "alice"; item_count = pos 6 }

abbrev bob : Check
bob = record { user_id = "bob"; item_count = pos 3 }

empty-WithinLimits : WithinLimits memory memory-IsRedis "S-1" (pos 10) (pos 8) empty_data
unfolding counter
empty-WithinLimits = record {
  sale = (pos 0, refl, omega arith, omega arith);
  user = λ _. (pos 0, refl, omega arith, omega arith);
}

countable :
    (n : ℕ)
    → n ≤ 8
    → (pos 0 ≤ℤ pos n) × (pos 10 +ℤ pos n ≤ℤ pos (2 ^ 53)) × (pos 8 +ℤ pos n ≤ℤ pos (2 ^ 53))
countable n small = omega (int_laws, small, +ℤ_parts (pos 10) (pos n), +ℤ_parts (pos 8) (pos n))

run_checks-WithinLimits_example :
    WithinLimits memory memory-IsRedis "S-1"
      (pos 10)
      (pos 8)
      (run_checks memory memory-IsRedis "S-1"
        (pos 10)
        (pos 8)
        (alice ∷ bob ∷ alice ∷ [])
        (record up { answers = shaky })).1.data_of
run_checks-WithinLimits_example =
    run_checks-WithinLimits memory memory-IsRedis "S-1" (pos 10) (pos 8) (alice ∷ bob ∷ alice ∷ [])
      (record up { answers = shaky })
      (countable 6 (omega arith), (countable 3 (omega arith), (countable 6 (omega arith), tt)))
      empty-WithinLimits

abbrev alone : Clients Data
alone = record {
  net = (distributed_lock memory "purchase:C-1" 3000000000 up).1;
  inside = update (λ _. false) 0 true;
}

alone_reached :
    Reach memory "purchase:C-1" 3000000000
      (Empty memory memory-IsRedis "purchase:C-1" 3000000000)
      alone
unfolding distributed_lock sending received
alone_reached = later (start up) (enter 0 refl refl)

mutual_exclusion_example : ◌≡◌ {A = ℕ} 0 0
mutual_exclusion_example =
    mutual_exclusion memory memory-IsRedis "purchase:C-1" 3000000000 alone_reached 0 0 refl refl

differ : ◌≢◌ {A = String} "bob" "alice"
differ q = absurd (ground (arith, (eq_iff "bob" "alice").1 q))

abbrev alices : Given
alices = record { user_id = "alice"; code = "CHK-1" }

abbrev bobs : Given
bobs = record { user_id = "bob"; code = "CHK-2" }

get_user_checkout_code-set_user_checkout_code_example :
    ((set_user_checkout_code memory "S-1" "alice" "CHK-1" (pos 600)
        >> (set_codes memory memory-IsRedis "S-1" (pos 600) (bobs ∷ [])
            >> get_user_checkout_code memory "S-1" "alice"))
      up).0
    ≡ ok "CHK-1"
get_user_checkout_code-set_user_checkout_code_example =
    get_user_checkout_code-set_user_checkout_code memory memory-IsRedis "S-1" (pos 600) up alices
      (bobs ∷ []) (λ _. refl) (differ, tt)

empty-counter : (key : String) → counter memory key empty_data ≡ ok (pos 0)
unfolding counter
empty-counter key = refl

decrement_counters-increment_counters_example :
    (m : Net Data) × ((increment_counters memory "S-1" "alice" (pos 2)
          >> decrement_counters memory "S-1" "alice" (pos 2))
        up
      ≡ (ok tt, m))
    × (counter memory (items_sold_key "S-1") m.data_of ≡ ok (pos 0))
    × (counter memory (count_key "S-1" "alice") m.data_of ≡ ok (pos 0))
    × ((j : String)
        → items_sold_key "S-1" ≢ j
        → count_key "S-1" "alice" ≢ j
        → counter memory j m.data_of ≡ counter memory j up.data_of)
unfolding ◌+ℤ◌
decrement_counters-increment_counters_example =
    decrement_counters-increment_counters memory memory-IsRedis up "S-1" "alice" (pos 2) (pos 0)
      (pos 0) (λ _. refl) (empty-counter (items_sold_key "S-1"))
      (empty-counter (count_key "S-1" "alice")) (omega arith) (omega arith) (omega arith)
      (omega arith)
