-- ===== src/Postgres/CheckoutRepository/Deletion.antt =====
-- What `DeleteCheckout` leaves.
use flashsale_service.Effect.{Result, ok, err}
use flashsale_service.Postgres.CheckoutRepository.{
  latest_attempt, without_code, delete_checkout, delete_attempts,
}
use flashsale_service.Prelude.{
  ◌≡◌, refl, String, List, none, ◌≢◌, ◌∷◌, arith, Bool-cases, ◌==◌, [], inl, inr, eq_iff,
}
use flashsale_service.Postgres.Store.{
  answered, failed, reply_lost, AttemptRow, Tables, run, Store, on_pool, Answer, advance,
  next_answer,
}

without_code-forgets :
    (code : String) (rows : List AttemptRow) → latest_attempt code (without_code code rows) ≡ none
unfolding latest_attempt without_code
without_code-forgets code [] = refl
without_code-forgets code (a ∷ rows) = ground (arith, without_code-forgets code rows)

without_code-keeps :
    (code other : String) (rows : List AttemptRow)
    → other ≢ code
    → latest_attempt other (without_code code rows) ≡ latest_attempt other rows
unfolding latest_attempt without_code
without_code-keeps code other [] h = refl
without_code-keeps code other (a ∷ rows) h = elim (Bool-cases (a.checkout_code == code)) [
  | inl same ↦ rw same (
      ground (
        arith,
        without_code-keeps code other rows h,
        eq_iff a.checkout_code code,
        eq_iff a.checkout_code other,
      ))
  | inr differs ↦ rw differs (rw (without_code-keeps code other rows h) refl)
]

-- The tables after `DeleteCheckout`.
abbrev pub Deleted : String → String → Tables → Result (Unit {0}) × Store → Type 0
Deleted code other t (ok _, s) =
    (latest_attempt code s.tables.attempts ≡ none)
    × (latest_attempt other s.tables.attempts ≡ latest_attempt other t.attempts)
Deleted code other t (err _, s) =
    latest_attempt other s.tables.attempts ≡ latest_attempt other t.attempts

-- After a checkout is deleted no attempt of its code is found, so that the code reads as not found;
-- the newest attempt of another code is what it was, also when the call ends with an error.
pub delete_checkout-Deleted :
    (code other : String) (s : Store)
    → other ≢ code
    → Deleted code other s.tables (delete_checkout code s)
unfolding delete_checkout run on_pool
delete_checkout-Deleted code other s h = go (next_answer s)
  where
    go :
        (a : Answer)
        → Deleted code other s.tables
            (on_pool a (ok (tt, delete_attempts code s.tables)) (advance s))
    go answered = (
      without_code-forgets code s.tables.attempts,
      without_code-keeps code other s.tables.attempts h,
    )
    go failed = refl
    go reply_lost = without_code-keeps code other s.tables.attempts h
