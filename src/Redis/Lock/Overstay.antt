-- ===== src/Redis/Lock/Overstay.antt =====
-- What follows when a client stays inside longer than the key lives: `ReleaseLock` deletes the key
-- of whoever holds it.
use flashsale_service.Redis.Lock.{Clients, Step, Reach, update}
use flashsale_service.Redis.Client.{Net}
use flashsale_service.Redis.Server.{Redis, IsRedis}
use flashsale_service.Redis.Cache.{release_lock}
use flashsale_service.Redis.Keys.{lock_name}
use flashsale_service.Prelude.{◌≡◌, ◌+◌, ℕ, true, false, String, pos}

module _ {S : Type 0} (r : Redis S) (laws : IsRedis r) (key : String) (e : ℕ) where
  abbrev locked : Net S → Net S
  locked n = record n { tick = n.tick + 1; data_of = r.set (lock_name key) "1" (pos e) n.data_of }

  abbrev without_lock : Net S → Net S
  without_lock n = record n { data_of = r.del (lock_name key) n.data_of }

  -- The lock was taken while `j` was inside: `j` held the key, the release of `i` deleted it, and
  -- `k` got the lock with `j` still inside.
  pub record TakenAway (i j k : ℕ) (s : Clients S) : Type 0 where
    pub before : Clients S
    pub reached : Reach r key e (λ s. (s.inside j ≡ false) × (s.inside k ≡ false)) before
    pub overstays : before.inside i ≡ true
    pub entered : before.inside j ≡ true
    pub waits : before.inside k ≡ false
    pub held : r.exists (lock_name key) before.net.data_of ≡ true
    pub deleted : r.exists (lock_name key) (release_lock r key before.net).1.data_of ≡ false
    pub left :
        Step r key e
          (λ _. ⊥)
          before
          (record {
            net = (release_lock r key before.net).1;
            inside = update before.inside i false;
          })
    pub taken :
        Step r key e
          (λ _. ⊥)
          (record {
            net = (release_lock r key before.net).1;
            inside = update before.inside i false;
          })
          s
