-- ===== src/Redis/Lock/Exclusion.antt =====
-- At most one client is inside, as long as no client stays inside longer than the key lives.
use flashsale_service.Effect.{Result, ok, M}
use flashsale_service.Redis.Lock.{
  Clients, Step, Reach, update, enter, refused, leave, lapse, resent, other, start, later,
}
use flashsale_service.Redis.Client.Rules.{request-keeps, Triple-request}
use flashsale_service.Effect.Triple.{Triple, Post}
use flashsale_service.Redis.Client.{Net}
use flashsale_service.Redis.Server.{Redis, IsRedis}
use flashsale_service.Redis.Cache.{distributed_lock}
use flashsale_service.Redis.Keys.{lock_name}
use flashsale_service.Prelude.{
  ◌≡◌, ℕ, Bool, true, false, String, pos, Bool-cases, inl, inr, subst, refl, arith, ◌≢◌, ◌∙◌,
}

module _ {S : Type 0} (r : Redis S) (laws : IsRedis r) (key : String) (e : ℕ) where
  abbrev Held : S → Type 0
  Held s = r.exists (lock_name key) s ≡ true

  free : {b : Bool} → b ≡ true → b ≡ false → ⊥
  free h k = cc

  -- The command of `DistributedLock`.
  abbrev set_lock : M S Bool
  set_lock s = let (won, s') = r.set_nx (lock_name key) "1" e s in (ok won, s')

  set_lock-Held : Triple Held set_lock (λ won _. won ≡ false) (λ _ _. Unit {0})
  set_lock-Held = record { at = λ s h. rw (laws.set_nx-held (lock_name key) "1" e s h) refl }

  set_lock-Holds : Triple (λ s. Unit {0}) set_lock (λ _ s. Held s) (λ _ _. Unit {0})
  set_lock-Holds = record {
    at = λ s _. elim (Bool-cases (r.exists (lock_name key) s)) [
      | inl held ↦ rw (laws.set_nx-held (lock_name key) "1" e s held) held
      | inr free ↦
          rw (laws.set_nx-free (lock_name key) "1" e s free)
            (laws.exists-set (lock_name key) "1" (pos e) s)
    ];
  }

  set_lock-keeps : (s : S) → Held s → Held (set_lock s).1
  set_lock-keeps s h = rw (laws.set_nx-held (lock_name key) "1" e s h) h

  -- Who gets the lock finds it free, and holds it then.
  distributed_lock-Won :
      (n n' : Net S)
      → distributed_lock r key e n ≡ (ok true, n')
      → (r.exists (lock_name key) n.data_of ≡ false) × Held n'.data_of
  unfolding distributed_lock
  distributed_lock-Won n n' h = elim (Bool-cases (r.exists (lock_name key) n.data_of)) [
    | inl held ↦ absurd (
        free refl (
          subst (λ (x : Result Bool × Net S). Post (λ won _. won ≡ false) (λ _ _. Unit {0}) x) h
            ((Triple-request set_lock set_lock-keeps set_lock-Held).at n held)))
    | inr free ↦ (
      free,
      subst
          (λ (x : Result Bool × Net S). Post (λ _ (m : Net S). Held m.data_of) (λ _ _. Unit {0}) x)
          h ((Triple-request set_lock (λ s k. k) set_lock-Holds).at n tt),
    )
  ]

  distributed_lock-Held :
      (n n' : Net S) (x : Result Bool)
      → distributed_lock r key e n ≡ (x, n')
      → Held n.data_of
      → Held n'.data_of
  unfolding distributed_lock
  distributed_lock-Held n n' x h held =
      subst (λ (y : Result Bool × Net S). Held y.1.data_of) h
        (request-keeps Held set_lock set_lock-keeps n held)

  pub record Exclusive (s : Clients S) : Type 0 where
    pub held : (i : ℕ) → s.inside i ≡ true → Held s.net.data_of
    pub one : (i j : ℕ) → s.inside i ≡ true → s.inside j ≡ true → i ≡ j

  abbrev pub Empty : Clients S → Type 0
  Empty s = (i : ℕ) → s.inside i ≡ false

  -- The three ways in which the clients inside change.
  module _ (f : ℕ → Bool) (i : ℕ) where
    update-one :
        ((j : ℕ) → f j ≡ true → ⊥)
        → (j k : ℕ) → update f i true j ≡ true
        → update f i true k ≡ true
        → j ≡ k
    update-one none j k hj hk = ground (arith, none j, none k)

    update-false-True : (j : ℕ) → update f i false j ≡ true → (f j ≡ true) × (i ≢ j)
    update-false-True j h = ground arith

  Step-Exclusive : {s t : Clients S} → Step r key e Empty s t → Exclusive s → Exclusive t
  Step-Exclusive {s} (enter i {n} out won) v = record {
    held = λ j _. (distributed_lock-Won s.net n won).1;
    one = update-one s.inside i (λ j inn. free (v.held j inn) (distributed_lock-Won s.net n won).0);
  }
  Step-Exclusive {s} (refused {x} {n} _ h) v = record {
    held = λ j inn. distributed_lock-Held s.net n x h (v.held j inn);
    one = v.one;
  }
  Step-Exclusive {s} (leave i inn) v = record {
    held = λ j h.
        let (stayed, ne) = update-false-True s.inside i j h in absurd (ne (v.one i j inn stayed));
    one = λ j k hj hk.
        v.one j k (update-false-True s.inside i j hj).0 (update-false-True s.inside i k hk).0;
  }
  Step-Exclusive {s} (lapse none_in) v = record {
    held = λ i inn. absurd (free inn (none_in i));
    one = v.one;
  }
  Step-Exclusive {s} (resent none_in) v = record {
    held = λ i inn. absurd (free inn (none_in i));
    one = v.one;
  }
  Step-Exclusive {s} (other n same) v = record { held = λ i inn. same ∙ v.held i inn; one = v.one }

  -- A server with the documented laws, any clients, requests that fail or whose answers are lost,
  -- and a key that lapses, and deletions that are sent again and arrive, while nobody is inside
  -- only: in every state that is reached, no two clients are inside.
  pub mutual_exclusion :
      {s : Clients S}
      → Reach r key e Empty s
      → (i j : ℕ) → s.inside i ≡ true
      → s.inside j ≡ true
      → i ≡ j
  mutual_exclusion reach = (go reach).one
    where
      go : {s : Clients S} → Reach r key e Empty s → Exclusive s
      go (start n) = record { held = λ i inn. cc; one = λ i j inn _. cc }
      go (later before step) = Step-Exclusive step (go before)
