-- ===== src/Redis/BloomFilter/Membership.antt =====
-- The filter in Redis has no false negatives, whatever requests fail.
use flashsale_service.Redis.Client.Rules.{request-keeps, Triple-request}
use flashsale_service.Effect.Triple.{Triple, Post, Triple-bind, Triple-then, Triple-ignore}
use flashsale_service.Redis.Client.{pipeline, Net, request, both, asking}
use flashsale_service.Redis.Server.{Redis, IsRedis}
use flashsale_service.Redis.BloomFilter.{
  RedisBloomFilter, add, contains, set_bits, get_bits, get_hashes, all_set,
}
use flashsale_service.Prelude.{
  ◌≡◌, refl, String, ℕ, ◌%◌, List, true, All, ◌∷◌, [], subst, Bool, ap, arith,
}
use flashsale_service.Effect.{ok, err, Result, M, pure, ignore}
use flashsale_service.Effect.{◌>>◌}

module _ {S : Type 0} (r : Redis S) (laws : IsRedis r) (fnv sha : String → ℕ)
    (bf : RedisBloomFilter) where
  abbrev Bit : ℕ → S → Type 0
  Bit h s = r.get_bit bf.key (h % bf.m) s ≡ ok true

  abbrev HasBits : List ℕ → S → Type 0
  HasBits hs s = All (λ h. Bit h s) hs

  set_bits-keeps :
      (q : ℕ) (hs : List ℕ) (n : Net S)
      → Bit q n.data_of
      → Bit q (pipeline (set_bits r fnv sha bf hs) n).1.data_of
  unfolding pipeline set_bits
  set_bits-keeps q [] n h = h
  set_bits-keeps q (x ∷ hs) n h = set_bits-keeps q hs (request (r.set_bit bf.key (x % bf.m)) n).1 (
      request-keeps (Bit q) (r.set_bit bf.key (x % bf.m))
        (λ s k. laws.set_bit-keeps bf.key (x % bf.m) (q % bf.m) s k) n h)

  set_bits-keeps_all :
      (qs hs : List ℕ) (n : Net S)
      → HasBits qs n.data_of
      → HasBits qs (pipeline (set_bits r fnv sha bf hs) n).1.data_of
  set_bits-keeps_all [] hs n h = tt
  set_bits-keeps_all (q ∷ qs) hs n h = (set_bits-keeps q hs n h.0, set_bits-keeps_all qs hs n h.1)

  set_bit-Bit :
      (h : ℕ)
      → Triple (λ s. Unit {0}) (r.set_bit bf.key (h % bf.m)) (λ _ s. Bit h s) (λ _ _. Unit {0})
  set_bit-Bit h = record { at = λ s _. returned s (r.set_bit bf.key (h % bf.m) s) refl }
    where
      returned :
          (s : S) (x : Result (Unit {0}) × S)
          → r.set_bit bf.key (h % bf.m) s ≡ x
          → Post (λ _ s'. Bit h s') (λ _ _. Unit {0}) x
      returned s (ok _, s') e =
          subst (λ (y : Result (Unit {0}) × S). Bit h y.1) e
            (laws.get_bit-set_bit bf.key (h % bf.m) s (ap (λ (y : Result (Unit {0}) × S). y.0) e))
      returned s (err e', s') e = tt

  -- Every bit of an element that was added without an error is set.
  set_bits-HasBits :
      (hs : List ℕ)
      → Triple
          (λ n. Unit {0})
          (pipeline (set_bits r fnv sha bf hs))
          (λ _ n. HasBits hs n.data_of)
          (λ _ _. Unit {0})
  unfolding pipeline set_bits
  set_bits-HasBits [] = record { at = λ n _. tt }
  set_bits-HasBits (h ∷ hs) = record {
    at = λ n _.
        let first = request (r.set_bit bf.key (h % bf.m)) n in
        combined first.0 (pipeline (set_bits r fnv sha bf hs) first.1).0 first.1
          ((Triple-request (r.set_bit bf.key (h % bf.m)) (λ s k. k) (set_bit-Bit h)).at n tt)
          ((set_bits-HasBits hs).at first.1 tt);
  }
    where
      combined :
          (x : Result (Unit {0})) (xs : Result (List (Unit {0}))) (n : Net S)
          → Post (λ _ (n' : Net S). Bit h n'.data_of) (λ _ _. Unit {0}) (x, n)
          → Post
              (λ _ (n' : Net S). HasBits hs n'.data_of)
              (λ _ _. Unit {0})
              (xs, (pipeline (set_bits r fnv sha bf hs) n).1)
          → Post
              (λ _ (n' : Net S). HasBits (h ∷ hs) n'.data_of)
              (λ _ _. Unit {0})
              (both x xs, (pipeline (set_bits r fnv sha bf hs) n).1)
      combined (ok _) (ok _) n p q = (set_bits-keeps h hs n p, q)
      combined (ok _) (err e) n p q = tt
      combined (err e) xs n p q = tt

  get_bit-Bit :
      (h : ℕ)
      → Triple (Bit h) (asking (r.get_bit bf.key (h % bf.m))) (λ b _. b ≡ true) (λ _ _. Unit {0})
  get_bit-Bit h = record { at = λ s k. rw k refl }

  get_bits-keeps :
      (q : ℕ) (hs : List ℕ) (n : Net S)
      → Bit q n.data_of
      → Bit q (pipeline (get_bits r fnv sha bf hs) n).1.data_of
  unfolding pipeline get_bits
  get_bits-keeps q [] n h = h
  get_bits-keeps q (x ∷ hs) n h =
      get_bits-keeps q hs (request (asking (r.get_bit bf.key (x % bf.m))) n).1
        (request-keeps (Bit q) (asking (r.get_bit bf.key (x % bf.m))) (λ s k. k) n h)

  asked-keeps_all :
      (qs : List ℕ) (x : ℕ) (n : Net S)
      → HasBits qs n.data_of
      → HasBits qs (request (asking (r.get_bit bf.key (x % bf.m))) n).1.data_of
  asked-keeps_all [] x n h = tt
  asked-keeps_all (q ∷ qs) x n h = (
    request-keeps (Bit q) (asking (r.get_bit bf.key (x % bf.m))) (λ s k. k) n h.0,
    asked-keeps_all qs x n h.1,
  )

  get_bits-HasBits :
      (hs : List ℕ)
      → Triple
          (λ n. HasBits hs n.data_of)
          (pipeline (get_bits r fnv sha bf hs))
          (λ bits _. all_set bits ≡ true)
          (λ _ _. Unit {0})
  unfolding pipeline get_bits all_set
  get_bits-HasBits [] = record { at = λ n _. refl }
  get_bits-HasBits (h ∷ hs) = record {
    at = λ n k.
        let first = request (asking (r.get_bit bf.key (h % bf.m))) n in
        let rest = pipeline (get_bits r fnv sha bf hs) first.1 in
        combined first.0 rest.0 first.1 rest.1
          ((Triple-request (asking (r.get_bit bf.key (h % bf.m))) (λ s k. k) (get_bit-Bit h)).at n
            k.0)
          ((get_bits-HasBits hs).at first.1 (asked-keeps_all hs h n k.1));
  }
    where
      combined :
          (x : Result Bool) (xs : Result (List Bool)) (n n' : Net S)
          → Post (λ b (_ : Net S). b ≡ true) (λ _ _. Unit {0}) (x, n)
          → Post (λ bits (_ : Net S). all_set bits ≡ true) (λ _ _. Unit {0}) (xs, n')
          → Post (λ bits (_ : Net S). all_set bits ≡ true) (λ _ _. Unit {0}) (both x xs, n')
      combined (ok b) (ok bs) n n' p q = ground arith
      combined (ok _) (err e) n n' p q = tt
      combined (err e) xs n n' p q = tt

  -- Elements added one after the other, whatever errors come back.
  unfoldable pub add_each : List String → M (Net S) (Unit {0})
  unfolding add
  add_each [] = pure tt
  add_each (x ∷ xs) = ignore (add r fnv sha bf x) >> add_each xs

  add-HasBits :
      (x : String)
      → Triple
          (λ n. Unit {0})
          (add r fnv sha bf x)
          (λ _ n. HasBits (get_hashes r fnv sha bf x) n.data_of)
          (λ _ _. Unit {0})
  unfolding add
  add-HasBits x =
      Triple-bind (λ _ n. HasBits (get_hashes r fnv sha bf x) n.data_of)
        (pipeline (set_bits r fnv sha bf (get_hashes r fnv sha bf x))) (λ _. pure tt)
        (set_bits-HasBits (get_hashes r fnv sha bf x)) (λ _. record { at = λ n h. h })

  add-keeps :
      (qs : List ℕ) (y : String)
      → Triple
          (λ n. HasBits qs n.data_of)
          (add r fnv sha bf y)
          (λ _ n. HasBits qs n.data_of)
          (λ _ n. HasBits qs n.data_of)
  unfolding add
  add-keeps qs y =
      Triple-bind (λ _ n. HasBits qs n.data_of)
        (pipeline (set_bits r fnv sha bf (get_hashes r fnv sha bf y))) (λ _. pure tt)
        (record {
          at = λ n h.
              either (pipeline (set_bits r fnv sha bf (get_hashes r fnv sha bf y)) n)
                (set_bits-keeps_all qs (get_hashes r fnv sha bf y) n h);
        })
        (λ _. record { at = λ n h. h })
    where
      either :
          (x : Result (List (Unit {0})) × Net S)
          → HasBits qs x.1.data_of
          → Post (λ _ n. HasBits qs n.data_of) (λ _ n. HasBits qs n.data_of) x
      either (ok _, n) h = h
      either (err _, n) h = h

  add_each-keeps :
      (qs : List ℕ) (ys : List String)
      → Triple
          (λ n. HasBits qs n.data_of)
          (add_each ys)
          (λ _ n. HasBits qs n.data_of)
          (λ _ _. Unit {0})
  unfolding add_each
  add_each-keeps qs [] = record { at = λ n h. h }
  add_each-keeps qs (y ∷ ys) =
      Triple-then (λ n. HasBits qs n.data_of) (ignore (add r fnv sha bf y)) (add_each ys)
        (Triple-ignore (λ n. HasBits qs n.data_of) (add r fnv sha bf y) (add-keeps qs y))
        (add_each-keeps qs ys)

  contains-True :
      (x : String)
      → Triple
          (λ n. HasBits (get_hashes r fnv sha bf x) n.data_of)
          (contains r fnv sha bf x)
          (λ b _. b ≡ true)
          (λ _ _. Unit {0})
  unfolding contains
  contains-True x =
      Triple-bind (λ bits _. all_set bits ≡ true)
        (pipeline (get_bits r fnv sha bf (get_hashes r fnv sha bf x))) (λ bits. pure (all_set bits))
        (get_bits-HasBits (get_hashes r fnv sha bf x)) (λ bits. record { at = λ n h. h })

  -- The answer, if one arrives, is `true`.
  abbrev pub SaysTrue : Result Bool × Net S → Type 0
  SaysTrue (ok b, _) = b ≡ true
  SaysTrue (err _, _) = Unit

  says_true : (x : Result Bool × Net S) → Post (λ b _. b ≡ true) (λ _ _. Unit {0}) x → SaysTrue x
  says_true (ok b, _) h = h
  says_true (err _, _) h = tt

  -- An element that was added without an error is contained, after any other additions and
  -- whatever becomes of them, if the server's answer arrives.
  pub contains-add :
      (x : String) (ys : List String) (n : Net S)
      → SaysTrue ((add r fnv sha bf x >> (add_each ys >> contains r fnv sha bf x)) n)
  contains-add x ys n =
      says_true ((add r fnv sha bf x >> (add_each ys >> contains r fnv sha bf x)) n) (
        (Triple-then (λ n. HasBits (get_hashes r fnv sha bf x) n.data_of) (add r fnv sha bf x)
            (add_each ys >> contains r fnv sha bf x) (add-HasBits x)
            (Triple-then (λ n. HasBits (get_hashes r fnv sha bf x) n.data_of) (add_each ys)
              (contains r fnv sha bf x) (add_each-keeps (get_hashes r fnv sha bf x) ys)
              (contains-True x))).at
          n tt)
