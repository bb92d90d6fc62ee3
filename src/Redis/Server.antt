-- ===== src/Redis/Server.antt =====
-- The Redis server and `strconv`, which the cache calls: the commands of the server on its data,
-- each of them one atomic step, and what is documented of them.
use flashsale_service.Errors.{external}
use flashsale_service.Effect.{Result, ok, err}
use flashsale_service.Prelude.{
  ◌≡◌, String, ℤ, Option, ℕ, pos_part, some, Bool, ◌<◌, pos, ◌≢◌, ◌^◌, none, neg_part, true, ◌≤◌,
  false, ◌+ℤ◌,
}

-- A command that is given a key of another type returns an error. `get` answers `none` for a key
-- that does not exist, which the client reports as `redis.Nil`.
pub record Redis (S : Type 0) : Type 0 where
  pub get : String → S → Result (Option String)
  pub set : String → String → ℤ → S → S
  pub set_nx : String → String → ℕ → S → Bool × S
  pub incr_by : String → ℤ → S → Result ℤ × S
  pub del : String → S → S
  pub exists : String → S → Bool
  pub expire : String → ℤ → S → S
  pub s_add : String → String → S → Result (Unit {0}) × S
  pub s_is_member : String → String → S → Result Bool
  -- SETBIT key offset 1, and GETBIT
  pub set_bit : String → ℕ → S → Result (Unit {0}) × S
  pub get_bit : String → ℕ → S → Result Bool
  -- `strconv.Itoa` and `Atoi`
  pub itoa : ℤ → String
  pub atoi : String → Option ℤ
  -- In a script: the number of Lua that is nearest to an integer, and the text of such a number.
  pub lua_number : ℤ → ℤ
  pub lua_text : ℤ → String

-- An integer of 64 bits, which is what the server counts with.
abbrev pub Fits : ℤ → Type 0
Fits n = (pos_part n < 2 ^ 63) × (neg_part n ≤ 2 ^ 63)

-- An integer that a number of Lua, a float of 64 bits, is exactly.
abbrev pub Exact : ℤ → Type 0
Exact n = (pos_part n ≤ 2 ^ 53) × (neg_part n ≤ 2 ^ 53)

module _ {S : Type 0} (r : Redis S) where
  abbrev pub parsed : Option String → Result ℤ
  parsed none = ok (pos 0)
  parsed (some text) = elim (r.atoi text) [
    | some n ↦ ok n
    | none ↦ err (external "strconv.Atoi: parsing: invalid syntax")
  ]

  abbrev pub parsed_or_error : Result (Option String) → Result ℤ
  parsed_or_error (ok text) = parsed text
  parsed_or_error (err e) = err e

  -- The number that a key counts, and 0 for a key that does not exist.
  unfoldable pub counter : String → S → Result ℤ
  counter k s = parsed_or_error (r.get k s)

-- What the documentation of the commands says, of a command and the next one. Expirations are
-- positive, so that a key does not expire at once.
pub record IsRedis {S : Type 0} (r : Redis S) : Type 0 where
  pub atoi-itoa : (n : ℤ) → r.atoi (r.itoa n) ≡ some n
  pub lua_number-Exact : (n : ℤ) → Exact n → r.lua_number n ≡ n
  pub lua_text-Exact : (n : ℤ) → Exact n → r.lua_text n ≡ r.itoa n
  pub get-set : (k v : String) (e : ℤ) (s : S) → r.get k (r.set k v e s) ≡ ok (some v)
  pub get-set_other : (k j v : String) (e : ℤ) (s : S) → k ≢ j → r.get j (r.set k v e s) ≡ r.get j s
  pub get-del : (k : String) (s : S) → r.get k (r.del k s) ≡ ok none
  pub get-del_other : (k j : String) (s : S) → k ≢ j → r.get j (r.del k s) ≡ r.get j s
  pub get-expire :
      (k j : String) (e : ℕ) (s : S) → 0 < e → r.get j (r.expire k (pos e) s) ≡ r.get j s
  pub exists-set : (k v : String) (e : ℤ) (s : S) → r.exists k (r.set k v e s) ≡ true
  pub exists-del : (k : String) (s : S) → r.exists k (r.del k s) ≡ false
  pub set_nx-free :
      (k v : String) (e : ℕ) (s : S)
      → r.exists k s ≡ false
      → r.set_nx k v e s ≡ (true, r.set k v (pos e) s)
  pub set_nx-held :
      (k v : String) (e : ℕ) (s : S) → r.exists k s ≡ true → r.set_nx k v e s ≡ (false, s)
  pub incr_by-counter :
      (k : String) (d n : ℤ) (s : S)
      → counter r k s ≡ ok n
      → Fits (n +ℤ d)
      → ((r.incr_by k d s).0 ≡ ok (n +ℤ d)) × (counter r k (r.incr_by k d s).1 ≡ ok (n +ℤ d))
  pub get-incr_by_other :
      (k j : String) (d : ℤ) (s : S) → k ≢ j → r.get j (r.incr_by k d s).1 ≡ r.get j s
  pub s_is_member-s_add :
      (k x : String) (s : S)
      → (r.s_add k x s).0 ≡ ok tt
      → r.s_is_member k x (r.s_add k x s).1 ≡ ok true
  pub s_is_member-s_add_other :
      (k x y : String) (s : S)
      → x ≢ y
      → (r.s_add k x s).0 ≡ ok tt
      → r.s_is_member k y (r.s_add k x s).1 ≡ r.s_is_member k y s
  pub s_is_member-expire :
      (k j x : String) (e : ℕ) (s : S)
      → 0 < e
      → r.s_is_member j x (r.expire k (pos e) s) ≡ r.s_is_member j x s
  pub get_bit-set_bit :
      (k : String) (p : ℕ) (s : S)
      → (r.set_bit k p s).0 ≡ ok tt
      → r.get_bit k p (r.set_bit k p s).1 ≡ ok true
  -- a command that sets a bit clears none
  pub set_bit-keeps :
      (k : String) (p q : ℕ) (s : S)
      → r.get_bit k q s ≡ ok true
      → r.get_bit k q (r.set_bit k p s).1 ≡ ok true
