-- ===== src/Http/Response.antt =====
-- internal/infrastructure/http/response/response.go. `Error` and `ValidationError` keep nothing of
-- their arguments but the message, so that a refusal is a status code and a message.
use flashsale_service.Prelude.{ℕ, String}

pub data Reply (A : Type 0) : Type 0 where
  replied : ℕ → A → Reply A
  refused : ℕ → String → Reply A
  -- only a status code is written
  bare : ℕ → Reply A

unfoldable pub write_success : {A : Type 0} → A → Reply A
write_success a = replied 200 a

unfoldable pub write_validation_error : {A : Type 0} → String → Reply A
write_validation_error message = refused 400 message
