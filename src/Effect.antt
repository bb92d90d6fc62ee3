-- ===== src/Effect.antt =====
-- A Go function that returns `(T, error)` and may change the world: the result and the world
-- after the call. What was changed before an error stays changed.
pub mod Triple
pub mod Answer
use flashsale_service.Prelude.{Bool, true, false}
use flashsale_service.Errors.{Error}

pub data Result {ℓ} (A : Type ℓ) : Type ℓ where
  ok : A → Result A
  err : Error → Result A

abbrev pub M : Type 0 → Type 0 → Type 0
M W A = W → Result A × W

module _ {W : Type 0} where
  abbrev pub pure : {A : Type 0} → A → M W A
  pure a w = (ok a, w)

  abbrev pub raise : {A : Type 0} → Error → M W A
  raise e w = (err e, w)

  infixl 5 ◌>>=◌ ◌>>◌
  -- `if err != nil { return nil, err }` after the call.
  abbrev pub ◌>>=◌ : {A B : Type 0} → M W A → (A → M W B) → M W B
  ◌>>=◌ m f w = let (r, w') = m w in elim r [ ok a ↦ f a w' | err e ↦ (err e, w') ]

  abbrev pub ◌>>◌ : {B : Type 0} → M W (Unit {0}) → M W B → M W B
  m >> k = m >>= λ _. k

  -- The error as a value, for code that inspects it or goes on.
  abbrev pub attempt : {A : Type 0} → M W A → M W (Result A)
  attempt m w = let (r, w') = m w in (ok r, w')

  -- `v, _ := f()`: an error is dropped and the value is Go's zero value, which `f` returns with it.
  abbrev pub or_zero : {A : Type 0} → A → M W A → M W A
  or_zero d m w = let (r, w') = m w in elim r [ ok a ↦ (ok a, w') | err _ ↦ (ok d, w') ]

  -- `_ = f()`, and `if err := f(); err != nil { log }`.
  abbrev pub ignore : {A : Type 0} → M W A → M W (Unit {0})
  ignore m w = let (r, w') = m w in (ok tt, w')

  -- The call returned an error, and the caller returns another one in its place.
  abbrev pub map_err : {A : Type 0} → (Error → Error) → M W A → M W A
  map_err f m w = let (r, w') = m w in elim r [ ok a ↦ (ok a, w') | err e ↦ (err (f e), w') ]

  -- `defer`: `last` runs when `m` has returned, whatever it returned.
  abbrev pub finally : {A : Type 0} → M W A → M W (Unit {0}) → M W A
  finally m last w = let (r, w') = m w in let (_, w'') = last w' in (r, w'')

  abbrev pub guard_not : Bool → Error → M W (Unit {0})
  guard_not true e = raise e
  guard_not false e = pure tt

  abbrev pub when : Bool → M W (Unit {0}) → M W (Unit {0})
  when true m = m
  when false m = pure tt
