-- ===== src/Postgres/OwnTransaction.antt =====
-- A method that opens a transaction of its own, commits it, and rolls it back after an error.
use flashsale_service.Postgres.Rules.{InTx, Triple-commit, tables-rollback, Triple-begin}
use flashsale_service.Effect.Triple.{Post, Triple, Triple-bind, weaken}
use flashsale_service.Postgres.SaleRepository.{in_own_tx}
use flashsale_service.Postgres.Store.{Tables, Repo, Store, in_tx, commit, rollback, begin}
use flashsale_service.Prelude.{◌≡◌, ℕ, ◌⊎◌, inl}
use flashsale_service.Effect.{ok, err, Result, M}

module _ (t : Tables) (R : Tables → Type 0) where
  closed_tx :
      (h : ℕ) (r : Result (Unit {0}) × Store)
      → Post {A = Unit {0}} (λ _ s. InTx t h R s) (λ _ s. s.tables ≡ t) r
      → Post {A = Unit {0}}
          (λ _ (s : Store). R s.tables)
          (λ _ s. (s.tables ≡ t) ⊎ R s.tables)
          (elim r.0 [ ok _ ↦ commit h r.1 | err e ↦ (err e, (rollback h r.1).1) ])
  closed_tx h (ok _, s) q = (Triple-commit t h R).at s q
  closed_tx h (err e, s) q = inl (tables-rollback t h s q)

  -- Without an error what the body has done is committed. After one it may have been.
  pub in_own_tx_lem :
      (body : Repo → M Store (Unit {0}))
      → ((h : ℕ)
          → Triple
              (InTx t h (λ d. d ≡ t))
              (body (in_tx h))
              (λ _ s. InTx t h R s)
              (λ _ s. s.tables ≡ t))
      → Triple
          (λ s. s.tables ≡ t)
          (in_own_tx body)
          (λ _ (s : Store). R s.tables)
          (λ _ s. (s.tables ≡ t) ⊎ R s.tables)
  unfolding in_own_tx
  in_own_tx_lem body f =
      Triple-bind (λ h s. InTx t h (λ d. d ≡ t) s) begin _
        (weaken (λ s h. h) (λ h s q. q) (λ e s q. inl q) (Triple-begin t))
        (λ h. record { at = λ s q. closed_tx h (body (in_tx h) s) ((f h).at s q) })
