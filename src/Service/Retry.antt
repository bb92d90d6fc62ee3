-- ===== src/Service/Retry.antt =====
-- The retry loop of `ExecutePurchase`: between two attempts the tables are unchanged, or the
-- purchase is recorded, and then no further attempt records another.
use flashsale_service.Service.Rules.{Triple-on_rest, ignore_rest}
use flashsale_service.Service.Attempt.{attempt_purchase-Bought}
use flashsale_service.Errors.{Error}
use flashsale_service.Service.Commit.{Bought, Outcome}
use flashsale_service.Domain.Checkout.{Checkout}
use flashsale_service.Service.{World, service_ports}
use flashsale_service.Postgres.Stock.Books.{IsConsistent, Recorded}
use flashsale_service.Domain.PurchaseService.{PurchaseResult}
use flashsale_service.Effect.{Result, ok, err, M, raise, ignore, pure}
use flashsale_service.Postgres.Store.{Tables, Store}
use flashsale_service.Ports.{CheckoutRepository, Cache, Clock, Ports}
use flashsale_service.UseCases.Purchase.{
  PurchaseUseCase, attempt_purchase, retry_loop, pause, leave_or, is_business_logic_error,
  cleanup_checkout, purchase_locked,
}
use mathlib.Core.Path.{subst}
use flashsale_service.Prelude.{
  ◌≡◌, refl, Option, some, String, ℕ, none, inl, inr, suc, sym, zero, ◌+◌, arith, true, false,
}
use flashsale_service.Effect.Triple.{Triple, Post, Triple-bind, Triple-then, Triple-ignore}

-- What the caller is told against what is committed. A result is that of the one purchase that
-- was recorded; the result `nil` without an error needs a use case that makes no attempt; after an
-- error the tables are as they were, or one purchase is recorded.
abbrev pub Reported : PurchaseUseCase → Tables → Option PurchaseResult → Tables → Type 0
Reported uc t (some r) t' = (c : Checkout) × Bought c r t t'
Reported uc t none t' = (uc.retry_attempts ≡ 0) × (t' ≡ t)

abbrev pub Told : PurchaseUseCase → Tables → Result (Option PurchaseResult) → Tables → Type 0
Told uc t (ok o) t' = Reported uc t o t'
Told uc t (err _) t' = (code : String) × Outcome code t t'

module _ {C : Type 0} (checkouts : CheckoutRepository C) (cache : Cache C) (clock : Clock C)
    (uc : PurchaseUseCase) where
  abbrev p : Ports (World C)
  p = service_ports checkouts cache clock

  module _ (t : Tables) (consistent : IsConsistent t) (c : Checkout) where
    -- What is known between two attempts.
    abbrev Between : World C → Type 0
    Between w = Outcome c.code t w.store.tables

    -- A code that has been processed is not processed again.
    again :
        {sale_id : String} {k : ℕ} {r : PurchaseResult} (w : World C)
        → Recorded c.code sale_id k r t w.store.tables
        → (x : Result PurchaseResult × World C)
        → Post
            (λ r' w'. Bought c r' w.store.tables w'.store.tables)
            (λ _ w'. Outcome c.code w.store.tables w'.store.tables)
            x
        → Post (λ r' w'. Bought c r' t w'.store.tables) (λ _ w'. Outcome c.code t w'.store.tables) x
    again w rec (ok r', w') (k, b, _, _) = cc (rec.result, b.fresh)
    again {sale_id} {k} {r} w rec (err e, w') (inl same) =
        inr (sale_id, k, r, subst (Recorded c.code sale_id k r t) (sym same) rec)
    again w rec (err e, w') (inr (_, _, _, b)) = cc (rec.result, b.fresh)

    attempt_again :
        Triple Between (attempt_purchase p uc c) (λ r w. Bought c r t w.store.tables) (λ _. Between)
    attempt_again = record { at = λ w h. go w h }
      where
        go :
            (w : World C)
            → Between w
            → Post (λ r w'. Bought c r t w'.store.tables) (λ _. Between) (attempt_purchase p uc c w)
        go w (inl e) = (attempt_purchase-Bought checkouts cache clock uc t consistent c).at w e
        go w (inr (_, _, _, rec)) = again w rec (attempt_purchase p uc c w) (
            (attempt_purchase-Bought checkouts cache clock uc w.store.tables rec.consistent c).at w
              refl)

    -- A result of the loop: bought, or none with the tables as `last` says.
    abbrev LoopPost : Option PurchaseResult → World C → Type 0
    LoopPost (some r) w = Bought c r t w.store.tables
    LoopPost none w = ⊥

    store-pause : (left n : ℕ) (w : World C) → (pause p uc left n w).store ≡ w.store
    unfolding pause
    store-pause left n w = ground arith

    leave_or-Bought :
        (go_on : Error → M (World C) (Option PurchaseResult))
        → ((e : Error) → Triple Between (go_on e) LoopPost (λ _. Between))
        → (x : Result PurchaseResult × World C)
        → Post (λ r w'. Bought c r t w'.store.tables) (λ _. Between) x
        → Post LoopPost (λ _. Between) (leave_or p uc go_on x.0 x.1)
    unfolding leave_or
    leave_or-Bought go_on k (ok r, w) h = h
    leave_or-Bought go_on k (err e, w) h =
        elim (is_business_logic_error e)
          as (λ b.
            Post LoopPost (λ _. Between)
              ((elim b as (λ _. M (World C) (Option PurchaseResult)) [
                | true ↦ raise e
                | false ↦ go_on e
              ])
                w)) [ true ↦ h | false ↦ (k e).at w h ]

    retry_loop-Bought :
        (left n : ℕ) (e : Error)
        → Triple Between (retry_loop p uc left n c (err e)) LoopPost (λ _. Between)
    unfolding retry_loop
    retry_loop-Bought zero n e = record { at = λ w h. h }
    retry_loop-Bought (suc left) n e = record {
      at = λ w h.
          leave_or-Bought _
            (λ e'. record {
              at = λ w' h'.
                  (retry_loop-Bought left (n + 1) e').at (pause p uc left n w')
                    (subst (λ s. Outcome c.code t s.tables) (sym (store-pause left n w')) h');
            })
            (attempt_purchase p uc c w) (attempt_again.at w h);
    }

    -- The postcondition of the use case.
    abbrev pub Good : Option PurchaseResult → World C → Type 0
    Good o w = Reported uc t o w.store.tables

    abbrev pub Failed : World C → Type 0
    Failed w = (code : String) × Outcome code t w.store.tables

    Good-loop :
        (x : Result (Option PurchaseResult) × World C)
        → Post LoopPost (λ _. Between) x
        → Post Good (λ _. Failed) x
    Good-loop (ok (some r), w) h = (c, h)
    Good-loop (ok none, w) h = absurd h
    Good-loop (err e, w) h = (c.code, h)

    whole_loop :
        (left : ℕ)
        → left ≡ uc.retry_attempts
        → Triple
            (λ (w : World C). w.store.tables ≡ t)
            (retry_loop p uc left 0 c (ok none))
            Good
            (λ _. Failed)
    unfolding retry_loop
    whole_loop zero e = record { at = λ w same. (sym e, same) }
    whole_loop (suc left) e = record {
      at = λ w same. Good-loop _ (
          leave_or-Bought _
            (λ e'. record {
              at = λ w' h'.
                  (retry_loop-Bought left (0 + 1) e').at (pause p uc left 0 w')
                    (subst (λ s. Outcome c.code t s.tables) (sym (store-pause left 0 w')) h');
            })
            (attempt_purchase p uc c w) (attempt_again.at w (inl same)));
    }

    cleanup-keeps :
        (P : Store → Type 0) (code : String)
        → Triple
            (λ (w : World C). P w.store)
            (ignore (cleanup_checkout p uc code c.sale_id c.user_id))
            (λ _ w. P w.store)
            (λ _. Failed)
    unfolding cleanup_checkout
    cleanup-keeps P code =
        Triple-ignore (λ w. P w.store) _
          (Triple-then (λ w. P w.store) _ _
            (ignore_rest P (cache.remove_user_checkout_code c.sale_id c.user_id))
            (Triple-then (λ w. P w.store) _ _ (ignore_rest P (cache.remove_checkout_code code))
              (Triple-on_rest P (checkouts.delete_checkout code))))

    pub purchase_locked-Good :
        (code : String)
        → Triple
            (λ (w : World C). w.store.tables ≡ t)
            (purchase_locked p uc code c)
            Good
            (λ _. Failed)
    unfolding purchase_locked
    purchase_locked-Good code =
        Triple-bind Good (retry_loop p uc uc.retry_attempts 0 c (ok none)) _
          (whole_loop uc.retry_attempts refl)
          (λ o.
            Triple-then (Good o) (ignore (cleanup_checkout p uc code c.sale_id c.user_id)) (pure o)
              (cleanup-keeps (λ s. Reported uc t o s.tables) code) (record { at = λ w h. h }))
