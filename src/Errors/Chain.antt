-- ===== src/Errors/Chain.antt =====
-- What `errors.Is` finds in a chain of wrapped errors: at most one value of errors.go.
use flashsale_service.Prelude.{◌≡◌, Option, none, some, true, arith}
use flashsale_service.Errors.{Error, DomainError, domain, message, wrapped, external, errors_is}

-- The value at the end of the chain.
unfoldable pub root : Error → Option DomainError
root (domain d) = some d
root (wrapped _ e) = root e
root (message _) = none
root (external _) = none

pub errors_is-root : (e : Error) (t : DomainError) → root e ≡ some t → errors_is e t ≡ true
unfolding root errors_is
errors_is-root (domain d) t h = ground arith
errors_is-root (wrapped _ e) t h = errors_is-root e t h
errors_is-root (message _) t h = ground arith
errors_is-root (external _) t h = ground arith

pub root-errors_is : (e : Error) (t : DomainError) → errors_is e t ≡ true → root e ≡ some t
unfolding root errors_is
root-errors_is (domain d) t h = ground arith
root-errors_is (wrapped _ e) t h = root-errors_is e t h
root-errors_is (message _) t h = ground arith
root-errors_is (external _) t h = ground arith
