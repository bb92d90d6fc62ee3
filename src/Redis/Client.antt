-- ===== src/Redis/Client.antt =====
-- The client of go-redis: what is sent is answered, fails, or is done and its answer is lost, as the
-- environment chooses. What is not answered is sent again, three times at most: `MaxRetries` of
-- go-redis, which internal/infrastructure/persistence/redis/connection.go leaves as it is.
pub mod Rules
use flashsale_service.Effect.{M, Result, err, ok, ◌>>=◌, pure}
use flashsale_service.Prelude.{ℕ, List, ◌+◌, ◌∷◌, [], suc, zero}
use flashsale_service.Effect.Answer.{answered, failed, reply_lost, Answer, connection_lost}

pub record Net (S : Type 0) : Type 0 where
  pub data_of : S
  pub answers : ℕ → Answer
  pub tick : ℕ

abbrev pub both : {A : Type 0} → Result A → Result (List A) → Result (List A)
both (err e) rs = err e
both (ok a) (err e) = err e
both (ok a) (ok rest) = ok (a ∷ rest)

module _ {S : Type 0} where
  module _ {A : Type 0} where
    unfoldable pub received : Answer → M S A → M (Net S) A
    received answered c n = let (r, s) = c n.data_of in (r, record n { data_of = s })
    received failed c n = (err connection_lost, n)
    received reply_lost c n = (err connection_lost, record n { data_of = (c n.data_of).1 })

    -- Sending something once, and again while no answer comes.
    abbrev pub again : Answer → M (Net S) A → M S A → M (Net S) A
    again answered next c n = received answered c n
    again failed next c n = next n
    again reply_lost next c n = next (received reply_lost c n).1

    unfoldable pub sending : ℕ → M S A → M (Net S) A
    unfolding received
    sending zero c n = received (n.answers n.tick) c (record n { tick = n.tick + 1 })
    sending (suc left) c n =
        let next = sending left c in
        again (n.answers n.tick) next c (record n { tick = n.tick + 1 })

    -- One request: a command, or a script, which runs atomically.
    unfoldable pub request : M S A → M (Net S) A
    unfolding sending
    request c n = sending 3 c n

  -- A command that only reads, one that can not fail, and one that returns what it found.
  abbrev pub asking : {A : Type 0} → (S → Result A) → M S A
  asking f s = (f s, s)

  abbrev pub telling : (S → S) → M S (Unit {0})
  telling f s = (ok tt, f s)

  -- `pipe.Exec`: the commands are sent together and run one after the other, not as one step. The
  -- first error is returned, and the commands after it still run. All pipelines here send commands
  -- that can be repeated, so that each is sent again by itself.
  unfoldable pub pipeline : {A : Type 0} → List (M S A) → M (Net S) (List A)
  unfolding request
  pipeline [] n = (ok [], n)
  pipeline (c ∷ cs) n =
      let (r, n') = request c n in let (rs, n'') = pipeline cs n' in (both r rs, n'')

  abbrev pub exec_all : List (M S (Unit {0})) → M (Net S) (Unit {0})
  exec_all cs = do _ ← pipeline cs; pure tt
