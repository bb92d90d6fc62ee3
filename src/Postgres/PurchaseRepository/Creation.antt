-- ===== src/Postgres/PurchaseRepository/Creation.antt =====
-- `CreatePurchase` names no id, which the table does not allow.
use flashsale_service.Prelude.{◌≡◌, ℕ, String, subst, none, sym}
use flashsale_service.Prelude.{refl}
use flashsale_service.Effect.{ok, err, Result}
use flashsale_service.Postgres.Store.{
  answered, failed, reply_lost, active, aborted, closed, commit, commit_state, on_tx, at_tx, run,
  set_tx, Answer, TxState, Store, Tables, next_answer, advance,
}
use flashsale_service.Postgres.PurchaseRepository.{create_purchase, insert_purchase, null_id}
use flashsale_service.Postgres.Rules.{tx_lookup}

-- An action that ended with an error, the committed tables being `t`.
abbrev pub FailedWith : {A : Type 0} → Tables → Result A × Store → Type 0
FailedWith t (ok _, s) = ⊥
FailedWith t (err _, s) = s.tables ≡ t

module _ (tx : ℕ) (sale_id user_id item_id checkout_code : String) where
  aborted-FailedWith : (s : Store) → FailedWith s.tables (commit tx (set_tx s tx aborted))
  unfolding commit commit_state
  aborted-FailedWith s =
      subst (λ x. FailedWith s.tables (commit_state tx x (set_tx s tx aborted)))
        (sym (tx_lookup s tx aborted)) refl

  answered_with :
      (a : Answer) (s : Store)
      → FailedWith s.tables (on_tx {A = Unit {0}} tx a (err null_id) s)
        × FailedWith s.tables (commit tx (on_tx {A = Unit {0}} tx a (err null_id) s).1)
  unfolding on_tx
  answered_with answered s = (refl, aborted-FailedWith s)
  answered_with failed s = (refl, aborted-FailedWith s)
  answered_with reply_lost s = (refl, aborted-FailedWith s)

  -- Whatever the state of the transaction and the server's answers, `CreatePurchase` returns an
  -- error and changes no committed table, and neither does a commit of the transaction after it,
  -- which returns an error too.
  pub create_purchase-FailedWith :
      (s : Store)
      → FailedWith s.tables (create_purchase tx sale_id user_id item_id checkout_code s)
        × FailedWith s.tables
            (commit tx (create_purchase tx sale_id user_id item_id checkout_code s).1)
  unfolding create_purchase commit run at_tx commit_state
  create_purchase-FailedWith s = go (s.txs tx) refl
    where
      go :
          (x : TxState)
          → s.txs tx ≡ x
          → let y = at_tx tx x (insert_purchase none sale_id user_id item_id checkout_code) s in
            FailedWith s.tables y × FailedWith s.tables (commit tx y.1)
      go (active d) h = answered_with (next_answer s) (advance s)
      go aborted h = (refl, subst (λ x. FailedWith s.tables (commit_state tx x s)) (sym h) refl)
      go closed h = (refl, subst (λ x. FailedWith s.tables (commit_state tx x s)) (sym h) refl)
