-- ===== src/Redis/Lock.antt =====
-- Clients that use `DistributedLock` and `ReleaseLock` of
-- internal/infrastructure/persistence/redis/cache.go on one key, the way `ExecutePurchase` does:
-- a client that got the lock is inside until it releases it. Steps are interleaved in any order.
-- What the client of go-redis sends again can arrive after steps of others: a DEL that arrives late
-- is `resent`, and a SET that arrives without an answer, or late, is one more `refused` or `enter`.
pub mod Exclusion
pub mod Overstay
use flashsale_service.Redis.Keys.{lock_name}
use flashsale_service.Redis.Cache.{distributed_lock, release_lock}
use flashsale_service.Redis.Client.{Net}
use flashsale_service.Redis.Server.{Redis}
use flashsale_service.Prelude.{◌≡◌, ◌≢◌, ℕ, Bool, true, false, String, if◌then◌else◌, ◌=ℕ=◌}
use flashsale_service.Effect.{Result, ok}

abbrev pub update : (ℕ → Bool) → ℕ → Bool → ℕ → Bool
update f i b j = if j =ℕ= i then b else f j

pub record Clients (S : Type 0) : Type 0 where
  pub net : Net S
  pub inside : ℕ → Bool

module _ {S : Type 0} (r : Redis S) (key : String) (e : ℕ) where
  -- The lock's key lapses, and the DEL of a client that has left arrives once more, where `P` holds
  -- only.
  pub data Step (P : Clients S → Type 0) (s : Clients S) : Clients S → Type 0 where
    enter :
        (i : ℕ) {n : Net S}
        → s.inside i ≡ false
        → distributed_lock r key e s.net ≡ (ok true, n)
        → Step P s (record { net = n; inside = update s.inside i true })
    refused :
        {x : Result Bool} {n : Net S}
        → x ≢ ok true
        → distributed_lock r key e s.net ≡ (x, n)
        → Step P s (record { net = n; inside = s.inside })
    leave :
        (i : ℕ)
        → s.inside i ≡ true
        → Step P s (record { net = (release_lock r key s.net).1; inside = update s.inside i false })
    lapse :
        P s
        → Step P s (record {
          net = record s.net { data_of = r.del (lock_name key) s.net.data_of };
          inside = s.inside;
        })
    resent : P s → Step P s (record { net = (release_lock r key s.net).1; inside = s.inside })
    -- requests to other keys
    other :
        (n : Net S)
        → r.exists (lock_name key) n.data_of ≡ r.exists (lock_name key) s.net.data_of
        → Step P s (record { net = n; inside = s.inside })

  pub data Reach (P : Clients S → Type 0) : Clients S → Type 0 where
    start : (n : Net S) → Reach P (record { net = n; inside = λ i. false })
    later : {s t : Clients S} → Reach P s → Step P s t → Reach P t
