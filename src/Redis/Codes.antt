-- ===== src/Redis/Codes.antt =====
-- The checkout codes of users: `SetUserCheckoutCode` and `GetUserCheckoutCode`.
use flashsale_service.Redis.Server.{Redis, IsRedis}
use flashsale_service.Prelude.{String, ℤ, List, ◌≡◌, ◌∷◌, some, ap, ℕ, All, [], ◌≢◌, ◌∙◌}
use flashsale_service.Effect.{ok, Result, M, pure, ◌>>=◌, ◌>>◌}
use flashsale_service.Effect.Answer.{answered}
use flashsale_service.Redis.Client.{Net, telling, asking}
use flashsale_service.Redis.Client.Rules.{bind-ok, request-answered, answered-bind, answered_once}
use flashsale_service.Redis.Cache.{get_user_checkout_code, set_user_checkout_code, or_empty}
use flashsale_service.Redis.Keys.{checkout_key, user_key_inj}

-- A user and the code that is stored for it.
pub record Given : Type 0 where
  pub user_id : String
  pub code : String

module _ {S : Type 0} (r : Redis S) (laws : IsRedis r) (sale_id : String) (e : ℤ) where
  unfoldable pub set_codes : List Given → M (Net S) (Unit {0})
  unfolding set_user_checkout_code
  set_codes [] = pure tt
  set_codes (g ∷ gs) = set_user_checkout_code r sale_id g.user_id g.code e >> set_codes gs

  abbrev Holds : String → String → Net S → Type 0
  Holds user_id code n = r.get (checkout_key sale_id user_id) n.data_of ≡ ok (some code)

  abbrev after_set : Given → Net S → Net S
  after_set g n = answered_once n (r.set (checkout_key sale_id g.user_id) g.code e n.data_of)

  set_user_checkout_code-Runs :
      (g : Given) (n : Net S)
      → n.answers n.tick ≡ answered
      → set_user_checkout_code r sale_id g.user_id g.code e n ≡ (ok tt, after_set g n)
  unfolding set_user_checkout_code
  set_user_checkout_code-Runs g n up =
      request-answered (telling (r.set (checkout_key sale_id g.user_id) g.code e)) n up

  get_user_checkout_code-Runs :
      (user_id code : String) (n : Net S)
      → n.answers n.tick ≡ answered
      → Holds user_id code n
      → (get_user_checkout_code r sale_id user_id n).0 ≡ ok code
  unfolding get_user_checkout_code
  get_user_checkout_code-Runs user_id code n up h =
      ap (λ (y : Result String × Net S). y.0)
        (answered-bind (asking (r.get (checkout_key sale_id user_id)))
          (λ text. pure (or_empty r text)) n (some code) n.data_of up (ap (λ x. (x, n.data_of)) h))

  -- The code of a user is still there after the codes of others.
  set_codes-Holds :
      (gs : List Given) (user_id code : String) (n : Net S)
      → ((t : ℕ) → n.answers t ≡ answered)
      → All (λ g. g.user_id ≢ user_id) gs
      → Holds user_id code n
      → ((set_codes gs >> get_user_checkout_code r sale_id user_id) n).0 ≡ ok code
  unfolding set_codes
  set_codes-Holds [] user_id code n up others h =
      get_user_checkout_code-Runs user_id code n (up n.tick) h
  set_codes-Holds (g ∷ gs) user_id code n up others h =
      ap
        (λ (y : Result (Unit {0}) × Net S).
          (((λ (_ : Net S). y) >>= (λ _. get_user_checkout_code r sale_id user_id)) n).0)
        (bind-ok (set_user_checkout_code r sale_id g.user_id g.code e) (λ _. set_codes gs) n
          (after_set g n) tt (set_user_checkout_code-Runs g n (up n.tick)))
      ∙ set_codes-Holds gs user_id code (after_set g n) up others.1 (
          laws.get-set_other (checkout_key sale_id g.user_id) (checkout_key sale_id user_id) g.code
            e n.data_of (λ q. others.0 (user_key_inj sale_id g.user_id user_id "checkout" q))
          ∙ h)

  -- With requests that are answered and codes that do not expire meanwhile: a user's code that is
  -- stored is the one that is read, after any codes that are stored for other users of the sale.
  pub get_user_checkout_code-set_user_checkout_code :
      (n : Net S) (g : Given) (gs : List Given)
      → ((t : ℕ) → n.answers t ≡ answered)
      → All (λ o. o.user_id ≢ g.user_id) gs
      → ((set_user_checkout_code r sale_id g.user_id g.code e
            >> (set_codes gs >> get_user_checkout_code r sale_id g.user_id))
          n).0
        ≡ ok g.code
  get_user_checkout_code-set_user_checkout_code n g gs up others =
      ap (λ (y : Result String × Net S). y.0)
        (bind-ok (set_user_checkout_code r sale_id g.user_id g.code e)
          (λ _. set_codes gs >> get_user_checkout_code r sale_id g.user_id) n (after_set g n) tt
          (set_user_checkout_code-Runs g n (up n.tick)))
      ∙ set_codes-Holds gs g.user_id g.code (after_set g n) up others
          (laws.get-set (checkout_key sale_id g.user_id) g.code e n.data_of)
