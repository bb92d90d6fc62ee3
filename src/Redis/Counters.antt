-- ===== src/Redis/Counters.antt =====
-- `IncrementCounters` and `DecrementCounters`, one after the other.
use flashsale_service.Redis.Client.{telling, Net}
use flashsale_service.Redis.Scripts.{
  day, minus_or_zero, decrement_script, increment_script, add_to, expire_in_a_day, count_of,
  lua_counter,
}
use flashsale_service.Prelude.{
  ℤ, String, pos, ◌≡◌, ◌≢◌, ◌≤ℤ◌, arith, refl, ◌+ℤ◌, ◌∙◌, ◌-ℤ◌, sym, eq_of_parts, +ℤ_parts,
  -ℤ_parts, ℕ, ◌+◌,
}
use flashsale_service.Redis.Server.{Redis, IsRedis, counter, parsed, Exact}
use flashsale_service.Effect.{ok, ◌>>=◌, ◌>>◌, M, pure}
use flashsale_service.Effect.Answer.{answered}
use flashsale_service.Redis.Client.Rules.{asked-bind, answered-bind, answered_once, bind-ok}
use flashsale_service.Redis.Limits.{counter-incr_by_other, added, Exact-Fits, lua_counter-Exact}
use flashsale_service.Redis.Cache.{increment_counters, decrement_counters}
use flashsale_service.Redis.Keys.{items_sold_key, count_key, items_sold_key-ne-user_key}

module _ {S : Type 0} (r : Redis S) (laws : IsRedis r) where
  add-sub : (a k : ℤ) → a +ℤ k -ℤ k ≡ a
  add-sub a k = eq_of_parts (a +ℤ k -ℤ k) a (omega (arith, +ℤ_parts a k, -ℤ_parts (a +ℤ k) k))

  minus_or_zero-add : (a k : ℤ) → pos 0 ≤ℤ a → Exact a → minus_or_zero r (a +ℤ k) k ≡ a
  minus_or_zero-add a k low exact =
      rw (add-sub a k, laws.lua_number-Exact a exact) (ground (arith, low))

  counter-set :
      (key : String) (n m e : ℤ) (s : S)
      → n ≡ m
      → Exact m
      → counter r key (r.set key (r.lua_text n) e s) ≡ ok m
  unfolding counter
  counter-set key n m e s same exact =
      rw
        (
          same,
          laws.lua_text-Exact m exact,
          laws.get-set key (r.itoa m) e s,
          parsed,
          laws.atoi-itoa m,
        )
        refl

  counter-set_other :
      (key j v : String) (e : ℤ) (s : S) → key ≢ j → counter r j (r.set key v e s) ≡ counter r j s
  unfolding counter
  counter-set_other key j v e s ne = rw (laws.get-set_other key j v e s ne) refl

  counter-expire : (key j : String) (s : S) → counter r j (r.expire key day s) ≡ counter r j s
  unfolding counter
  counter-expire key j s = rw (laws.get-expire key j 86400 s (omega arith)) refl

  module _ (sale_key user_key : String) (ne : sale_key ≢ user_key) (k : ℤ) (exact_k : Exact k) where
    -- What the two scripts leave behind.
    abbrev incremented : S → S
    incremented s = r.expire user_key day (r.incr_by user_key k (r.incr_by sale_key k s).1).1

    abbrev written_back : ℤ → ℤ → S → S
    written_back sold bought s =
        r.set user_key (r.lua_text (minus_or_zero r bought k)) (pos 0)
          (r.set sale_key (r.lua_text (minus_or_zero r sold k)) (pos 0) s)

    module _ (s : S) (sold bought : ℤ) (hs : counter r sale_key s ≡ ok sold)
        (hb : counter r user_key s ≡ ok bought)
        (fits : Exact (sold +ℤ k) × Exact (bought +ℤ k)) where
      user_kept : counter r user_key (r.incr_by sale_key k s).1 ≡ ok bought
      user_kept = counter-incr_by_other r laws sale_key user_key k s ne ∙ hb

      increment_script-Runs : increment_script r sale_key user_key k s ≡ (ok (pos 1), incremented s)
      unfolding increment_script
      increment_script-Runs = rw (laws.lua_number-Exact k exact_k) (
          added r laws sale_key k sold s
            (add_to r user_key k >> (expire_in_a_day r user_key >> pure (pos 1))) hs exact_k fits.0
          ∙ added r laws user_key k bought (r.incr_by sale_key k s).1
              (expire_in_a_day r user_key >> pure (pos 1)) user_kept exact_k fits.1)

      incremented-sale : counter r sale_key (incremented s) ≡ ok (sold +ℤ k)
      incremented-sale =
          counter-expire user_key sale_key (r.incr_by user_key k (r.incr_by sale_key k s).1).1
          ∙ (counter-incr_by_other r laws user_key sale_key k (r.incr_by sale_key k s).1
                (λ q. ne (sym q))
              ∙ (laws.incr_by-counter sale_key k sold s hs (Exact-Fits (sold +ℤ k) fits.0)).1)

      incremented-user : counter r user_key (incremented s) ≡ ok (bought +ℤ k)
      incremented-user =
          counter-expire user_key user_key (r.incr_by user_key k (r.incr_by sale_key k s).1).1
          ∙ (laws.incr_by-counter user_key k bought (r.incr_by sale_key k s).1 user_kept
              (Exact-Fits (bought +ℤ k) fits.1)).1

      incremented-other :
          (j : String) → sale_key ≢ j → user_key ≢ j → counter r j (incremented s) ≡ counter r j s
      incremented-other j ns nu =
          counter-expire user_key j (r.incr_by user_key k (r.incr_by sale_key k s).1).1
          ∙ (counter-incr_by_other r laws user_key j k (r.incr_by sale_key k s).1 nu
              ∙ counter-incr_by_other r laws sale_key j k s ns)

    decrement_script-Runs :
        (s : S) (sold bought : ℤ)
        → counter r sale_key s ≡ ok sold
        → counter r user_key s ≡ ok bought
        → Exact sold × Exact bought
        → decrement_script r sale_key user_key k s ≡ (ok (pos 1), written_back sold bought s)
    unfolding decrement_script
    decrement_script-Runs s sold bought hs hb exact = rw (laws.lua_number-Exact k exact_k) (
        asked-bind (lua_counter r sale_key) (λ x. count_of r user_key >>= (λ y. write x y)) s sold
          (lua_counter-Exact r laws sale_key sold s hs exact.0)
        ∙ asked-bind (lua_counter r user_key) (λ y. write sold y) s bought
            (lua_counter-Exact r laws user_key bought s hb exact.1))
      where
        write : ℤ → ℤ → M S ℤ
        write x y =
            telling (r.set sale_key (r.lua_text (minus_or_zero r x k)) (pos 0))
            >> (telling (r.set user_key (r.lua_text (minus_or_zero r y k)) (pos 0)) >> pure (pos 1))

    -- The two requests, both answered: both counters are back.
    both_back :
        (s : S) (sold bought : ℤ)
        → (pos 0 ≤ℤ sold) × (pos 0 ≤ℤ bought)
        → Exact sold × Exact bought
        → (counter r sale_key (written_back (sold +ℤ k) (bought +ℤ k) s) ≡ ok sold)
          × (counter r user_key (written_back (sold +ℤ k) (bought +ℤ k) s) ≡ ok bought)
    both_back s sold bought low exact = (
      counter-set_other user_key sale_key (r.lua_text (minus_or_zero r (bought +ℤ k) k)) (pos 0)
            (r.set sale_key (r.lua_text (minus_or_zero r (sold +ℤ k) k)) (pos 0) s)
            (λ q. ne (sym q))
          ∙ counter-set sale_key (minus_or_zero r (sold +ℤ k) k) sold (pos 0) s
              (minus_or_zero-add sold k low.0 exact.0) exact.0,
      counter-set user_key (minus_or_zero r (bought +ℤ k) k) bought (pos 0)
          (r.set sale_key (r.lua_text (minus_or_zero r (sold +ℤ k) k)) (pos 0) s)
          (minus_or_zero-add bought k low.1 exact.1) exact.1,
    )

    written_back-other :
        (sold bought : ℤ) (s : S) (j : String)
        → sale_key ≢ j
        → user_key ≢ j
        → counter r j (written_back sold bought s) ≡ counter r j s
    written_back-other sold bought s j ns nu =
        counter-set_other user_key j (r.lua_text (minus_or_zero r bought k)) (pos 0)
          (r.set sale_key (r.lua_text (minus_or_zero r sold k)) (pos 0) s) nu
        ∙ counter-set_other sale_key j (r.lua_text (minus_or_zero r sold k)) (pos 0) s ns

  -- With requests that are answered, counts that are not negative, and a number such that it, the
  -- counts and their sums with it are 2 ^ 53 at most in absolute value:
  -- `DecrementCounters` after `IncrementCounters` of the same number succeeds, both counters are as
  -- they were before, and every other counter is unchanged.
  pub decrement_counters-increment_counters :
      (n : Net S) (sale_id user_id : String) (k sold bought : ℤ)
      → ((t : ℕ) → n.answers t ≡ answered)
      → counter r (items_sold_key sale_id) n.data_of ≡ ok sold
      → counter r (count_key sale_id user_id) n.data_of ≡ ok bought
      → (pos 0 ≤ℤ sold) × (pos 0 ≤ℤ bought)
      → Exact k
      → Exact sold × Exact bought
      → Exact (sold +ℤ k) × Exact (bought +ℤ k)
      → (m : Net S) × ((increment_counters r sale_id user_id k
              >> decrement_counters r sale_id user_id k)
            n
          ≡ (ok tt, m))
        × (counter r (items_sold_key sale_id) m.data_of ≡ ok sold)
        × (counter r (count_key sale_id user_id) m.data_of ≡ ok bought)
        × ((j : String)
            → items_sold_key sale_id ≢ j
            → count_key sale_id user_id ≢ j
            → counter r j m.data_of ≡ counter r j n.data_of)
  unfolding increment_counters decrement_counters
  decrement_counters-increment_counters n sale_id user_id k sold bought up hs hb low exact_k exact
        fits =
      (
        answered_once (answered_once n after)
            (written_back sale_key user_key ne k exact_k (sold +ℤ k) (bought +ℤ k) after),
        bind-ok (increment_counters r sale_id user_id k)
              (λ _. decrement_counters r sale_id user_id k) n (answered_once n after) tt
              (answered-bind (increment_script r sale_key user_key k) (λ _. pure tt) n (pos 1) after
                (up n.tick)
                (increment_script-Runs sale_key user_key ne k exact_k n.data_of sold bought hs hb
                  fits))
            ∙ answered-bind (decrement_script r sale_key user_key k) (λ _. pure tt)
                (answered_once n after) (pos 1)
                (written_back sale_key user_key ne k exact_k (sold +ℤ k) (bought +ℤ k) after)
                (up (n.tick + 1))
                (decrement_script-Runs sale_key user_key ne k exact_k after (sold +ℤ k)
                  (bought +ℤ k)
                  (incremented-sale sale_key user_key ne k exact_k n.data_of sold bought hs hb fits)
                  (incremented-user sale_key user_key ne k exact_k n.data_of sold bought hs hb fits)
                  fits),
        (both_back sale_key user_key ne k exact_k after sold bought low exact).0,
        (both_back sale_key user_key ne k exact_k after sold bought low exact).1,
        λ j ns nu.
            written_back-other sale_key user_key ne k exact_k (sold +ℤ k) (bought +ℤ k) after j ns
              nu
            ∙ incremented-other sale_key user_key ne k exact_k n.data_of sold bought hs hb fits j ns
                nu,
      )
    where
      sale_key : String
      sale_key = items_sold_key sale_id

      user_key : String
      user_key = count_key sale_id user_id

      ne : sale_key ≢ user_key
      ne = items_sold_key-ne-user_key sale_id sale_id user_id "count"

      after : S
      after = incremented sale_key user_key ne k exact_k n.data_of
