-- ===== src/Redis/Scripts.antt =====
-- The Lua scripts of internal/infrastructure/persistence/redis/cache.go. A script runs as one step
-- of the server; after an error in it what it has done stays. Lua counts with floating-point
-- numbers: `lua_number` rounds what `tonumber` reads and what is computed, and `lua_text` writes a
-- number as the argument of a command. What the scripts write to the server's log is left out.
use flashsale_service.Errors.{external}
use flashsale_service.Redis.Client.{telling, asking}
use flashsale_service.Redis.Server.{Redis, counter}
use flashsale_service.Prelude.{
  ℤ, pos, if◌then◌else◌, String, leb_ℤ, ◌-ℤ◌, ltb_ℤ, ◌+ℤ◌, Option, some, none,
}
use flashsale_service.Effect.{◌>>=◌, ◌>>◌, M, pure, Result, ok, err}

-- A day, in seconds.
abbrev pub day : ℤ
day = pos 86400

module _ {S : Type 0} (r : Redis S) where
  abbrev rounded : Result ℤ → Result ℤ
  rounded (ok n) = ok (r.lua_number n)
  rounded (err e) = err e

  -- `tonumber(redis.call('GET', key) or 0)`: a text that is no number is `nil`, and computing with
  -- it is an error. The keys are written with integers only.
  abbrev pub lua_counter : String → S → Result ℤ
  lua_counter key s = rounded (counter r key s)

  abbrev pub count_of : String → M S ℤ
  count_of key = asking (lua_counter key)

  -- `math.max(0, a - b)`
  abbrev pub minus_or_zero : ℤ → ℤ → ℤ
  minus_or_zero a b = if leb_ℤ (pos 0) (r.lua_number (a -ℤ b)) then r.lua_number (a -ℤ b) else pos 0

  -- `redis.call('INCRBY', key, n)`: the server reads the text of the argument.
  abbrev pub incr_by_text : String → Option ℤ → M S ℤ
  incr_by_text key (some n) s = r.incr_by key n s
  incr_by_text key none s = (err (external "ERR value is not an integer or out of range"), s)

  -- The same, with the count dropped.
  abbrev pub add_to : String → ℤ → M S (Unit {0})
  add_to key n = do _ ← incr_by_text key (r.atoi (r.lua_text n)); pure tt

  abbrev pub expire_in_a_day : String → M S (Unit {0})
  expire_in_a_day key = telling (r.expire key day)

  -- The script once it has read both counts.
  unfoldable pub decide_purchase : String → String → ℤ → ℤ → ℤ → ℤ → ℤ → M S ℤ
  decide_purchase sale_key user_key n max_sale max_user sold bought =
      if ltb_ℤ max_sale (r.lua_number (sold +ℤ n))
      then pure (pos 0)
      else if ltb_ℤ (r.lua_number (max_user -ℤ bought)) n
      then pure (pos 0)
      else (do add_to sale_key n; add_to user_key n; pure (pos 1))

  unfoldable pub purchase_script : String → String → ℤ → ℤ → ℤ → M S ℤ
  unfolding decide_purchase
  purchase_script sale_key user_key n max_sale max_user = do
    sold ← count_of sale_key
    bought ← count_of user_key
    decide_purchase sale_key user_key (r.lua_number n) (r.lua_number max_sale)
        (r.lua_number max_user) sold bought

  -- The scripts that check one limit.
  abbrev pub below : ℤ → ℤ → ℤ → M S ℤ → M S ℤ
  below count n max_items granted =
      if ltb_ℤ (r.lua_number max_items) (r.lua_number (count +ℤ n)) then pure (pos 0) else granted

  unfoldable pub user_limit_script : String → ℤ → ℤ → M S ℤ
  user_limit_script user_key n max_items = do
    bought ← count_of user_key
    below bought (r.lua_number n) max_items
        (do add_to user_key (r.lua_number n); expire_in_a_day user_key; pure (pos 1))

  unfoldable pub sale_limit_script : String → ℤ → ℤ → M S ℤ
  sale_limit_script sale_key n max_items = do
    sold ← count_of sale_key
    below sold (r.lua_number n) max_items (do add_to sale_key (r.lua_number n); pure (pos 1))

  unfoldable pub decrement_script : String → String → ℤ → M S ℤ
  decrement_script sale_key user_key n = do
    sold ← count_of sale_key
    bought ← count_of user_key
    telling (r.set sale_key (r.lua_text (minus_or_zero sold (r.lua_number n))) (pos 0))
    telling (r.set user_key (r.lua_text (minus_or_zero bought (r.lua_number n))) (pos 0))
    pure (pos 1)

  unfoldable pub increment_script : String → String → ℤ → M S ℤ
  increment_script sale_key user_key n = do
    add_to sale_key (r.lua_number n)
    add_to user_key (r.lua_number n)
    expire_in_a_day user_key
    pure (pos 1)
