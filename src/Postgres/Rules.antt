-- ===== src/Postgres/Rules.antt =====
-- What a statement of a transaction can change: the transaction's own copy of the tables, never
-- what is committed. Rules for the actions of Postgres.Store, to be used with Effect.Triple.
use flashsale_service.Prelude.{ℕ, ◌≡◌, refl, arith, ◌⊎◌, inl, inr, ◌+◌}
use flashsale_service.Effect.{Result, ok, err}
use flashsale_service.Effect.Triple.{Triple, Post}
use flashsale_service.Postgres.Store.{
  Tables, TxState, active, aborted, closed, Answer, answered, failed, reply_lost, Store, in_tx,
  Statement, run, begin, commit, rollback, next_answer, advance, set_tx, on_tx, at_tx, commit_state,
  rollback_state, connection_lost,
}

-- `R` of the transaction's copy, if the transaction can still be committed.
abbrev pub TxHolds : (Tables → Type 0) → TxState → Type 0
TxHolds R (active d) = R d
TxHolds R aborted = Unit
TxHolds R closed = Unit

-- The committed tables are `t`, and `R` holds in transaction `h`.
abbrev pub InTx : Tables → ℕ → (Tables → Type 0) → Store → Type 0
InTx t h R s = (s.tables ≡ t) × TxHolds R (s.txs h)

-- The committed tables are `t`, and transaction `h` can not be committed any more.
abbrev pub Dead : Tables → ℕ → Store → Type 0
Dead t h = InTx t h (λ _. ⊥)

-- `R` of the copy of a transaction that can be committed.
abbrev pub LiveHolds : (Tables → Type 0) → TxState → Type 0
LiveHolds R (active d) = R d
LiveHolds R aborted = ⊥
LiveHolds R closed = ⊥

abbrev pub Live : Tables → ℕ → (Tables → Type 0) → Store → Type 0
Live t h R s = (s.tables ≡ t) × LiveHolds R (s.txs h)

abbrev pub StatementPost : {A : Type 0} → (A → Tables → Type 0) → Result (A × Tables) → Type 0
StatementPost Q (ok (a, d)) = Q a d
StatementPost Q (err _) = Unit

pub tx_lookup : (s : Store) (h : ℕ) (x : TxState) → (set_tx s h x).txs h ≡ x
tx_lookup s h x = ground arith

module _ {A : Type 0} (t : Tables) (h : ℕ) (Q : A → Tables → Type 0) where
  on_tx-Live :
      (a : Answer) (r : Result (A × Tables)) (s : Store)
      → s.tables ≡ t
      → StatementPost Q r
      → Post (λ a. Live t h (Q a)) (λ _. Dead t h) (on_tx h a r s)
  unfolding on_tx
  on_tx-Live answered (ok (a, d)) s e p = (e, rw (tx_lookup s h (active d)) p)
  on_tx-Live answered (err _) s e p = (e, rw (tx_lookup s h aborted) tt)
  on_tx-Live failed r s e p = (e, rw (tx_lookup s h aborted) tt)
  on_tx-Live reply_lost r s e p = (e, rw (tx_lookup s h aborted) tt)

  at_tx-Live :
      (R : Tables → Type 0) (q : Statement A) (x : TxState) (s : Store)
      → ((now : ℕ) (d : Tables) → R d → StatementPost Q (q now d))
      → s.txs h ≡ x
      → s.tables ≡ t
      → TxHolds R x
      → Post (λ a. Live t h (Q a)) (λ _. Dead t h) (at_tx h x q s)
  unfolding at_tx
  at_tx-Live R q (active d) s step ex e p =
      on_tx-Live (next_answer s) (q s.clock d) (advance s) e (step s.clock d p)
  at_tx-Live R q aborted s step ex e p = (e, rw ex tt)
  at_tx-Live R q closed s step ex e p = (e, rw ex tt)

  pub run-Live :
      (R : Tables → Type 0) (q : Statement A)
      → ((now : ℕ) (d : Tables) → R d → StatementPost Q (q now d))
      → Triple (InTx t h R) (run (in_tx h) q) (λ a. Live t h (Q a)) (λ _. Dead t h)
  unfolding run
  run-Live R q step = record { at = λ s p. at_tx-Live R q (s.txs h) s step refl p.0 p.1 }

module _ (t : Tables) (h : ℕ) where
  holds_live : (R : Tables → Type 0) (x : TxState) → LiveHolds R x → TxHolds R x
  holds_live R (active d) p = p
  holds_live R aborted p = tt
  holds_live R closed p = tt

  pub Live-InTx : (R : Tables → Type 0) (s : Store) → Live t h R s → InTx t h R s
  Live-InTx R s p = (p.0, holds_live R (s.txs h) p.1)

  holds_dead : (R : Tables → Type 0) (x : TxState) → TxHolds (λ _. ⊥) x → TxHolds R x
  holds_dead R (active d) p = absurd p
  holds_dead R aborted p = tt
  holds_dead R closed p = tt

  pub Dead-InTx : (R : Tables → Type 0) (s : Store) → Dead t h s → InTx t h R s
  Dead-InTx R s p = (p.0, holds_dead R (s.txs h) p.1)

  holds_map :
      {R R' : Tables → Type 0} (x : TxState)
      → ((d : Tables) → R d → R' d)
      → TxHolds R x
      → TxHolds R' x
  holds_map (active d) f p = f d p
  holds_map aborted f p = tt
  holds_map closed f p = tt

  pub InTx-map :
      {R R' : Tables → Type 0} (s : Store)
      → ((d : Tables) → R d → R' d)
      → InTx t h R s
      → InTx t h R' s
  InTx-map s f p = (p.0, holds_map (s.txs h) f p.1)

  fact_of_holds : {X : Type 0} (x : TxState) → LiveHolds (λ _. X) x → X
  fact_of_holds (active d) p = p
  fact_of_holds aborted p = absurd p
  fact_of_holds closed p = absurd p

  pub live_map :
      {R R' : Tables → Type 0} (x : TxState)
      → ((d : Tables) → R d → R' d)
      → LiveHolds R x
      → LiveHolds R' x
  live_map (active d) f p = f d p
  live_map aborted f p = p
  live_map closed f p = p

  -- What holds of a live transaction's copy without mentioning it holds.
  pub live_fact :
      {R : Tables → Type 0} {X : Type 0} (s : Store) → ((d : Tables) → R d → X) → Live t h R s → X
  live_fact s f p = fact_of_holds (s.txs h) (live_map (s.txs h) f p.1)

module _ (t : Tables) where
  -- A transaction that begins starts from the committed tables.
  begin-InTx :
      (s : Store)
      → s.tables ≡ t
      → Post (λ h. InTx t h (λ d. d ≡ t)) (λ _ s'. s'.tables ≡ t) (begin s)
  unfolding begin
  begin-InTx s e = go (next_answer s)
    where
      go :
          (a : Answer)
          → Post
              (λ h. InTx t h (λ d. d ≡ t))
              (λ _ s'. s'.tables ≡ t)
              (elim a [
                | answered ↦ (
                  ok s.next_tx,
                  record (set_tx (advance s) s.next_tx (active s.tables)) {
                    next_tx = s.next_tx + 1;
                  },
                )
                | _ ↦ (err connection_lost, advance s)
              ])
      go answered = (e, rw (tx_lookup (advance s) s.next_tx (active s.tables)) e)
      go failed = e
      go reply_lost = e

  pub Triple-begin :
      Triple (λ s. s.tables ≡ t) begin (λ h. InTx t h (λ d. d ≡ t)) (λ _ s. s.tables ≡ t)
  Triple-begin = record { at = begin-InTx }

  -- A commit that succeeds installs the copy. One that fails may have done so too.
  module _ (h : ℕ) (R : Tables → Type 0) where
    commit_state-InTx :
        (x : TxState) (s : Store)
        → s.tables ≡ t
        → TxHolds R x
        → Post {A = Unit {0}}
            (λ _ (s' : Store). R s'.tables)
            (λ _ (s' : Store). (s'.tables ≡ t) ⊎ R s'.tables)
            (commit_state h x s)
    unfolding commit_state
    commit_state-InTx (active d) s e p = go (next_answer s)
      where
        go :
            (a : Answer)
            → Post {A = Unit {0}}
                (λ _ (s' : Store). R s'.tables)
                (λ _ (s' : Store). (s'.tables ≡ t) ⊎ R s'.tables)
                (elim a [
                  | answered ↦ (ok tt, record (set_tx (advance s) h closed) { tables = d })
                  | failed ↦ (err connection_lost, set_tx (advance s) h closed)
                  | reply_lost ↦
                      (err connection_lost, record (set_tx (advance s) h closed) { tables = d })
                ])
        go answered = p
        go failed = inl e
        go reply_lost = inr p
    commit_state-InTx aborted s e p = inl e
    commit_state-InTx closed s e p = inl e

    pub Triple-commit :
        Triple
          (InTx t h R)
          (commit h)
          (λ _ s'. R s'.tables)
          (λ _ (s' : Store). (s'.tables ≡ t) ⊎ R s'.tables)
    unfolding commit
    Triple-commit = record { at = λ s p. commit_state-InTx (s.txs h) s p.0 p.1 }

    rollback_state-InTx :
        (x : TxState) (s : Store) → s.tables ≡ t → (rollback_state h x s).1.tables ≡ t
    unfolding rollback_state
    rollback_state-InTx (active d) s e = e
    rollback_state-InTx aborted s e = e
    rollback_state-InTx closed s e = e

  pub tables-rollback : (h : ℕ) (s : Store) → s.tables ≡ t → (rollback h s).1.tables ≡ t
  unfolding rollback
  tables-rollback h s e = rollback_state-InTx h (λ _. ⊥) (s.txs h) s e
