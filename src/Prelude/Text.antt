-- ===== src/Prelude/Text.antt =====
-- Joining texts, as `fmt.Sprintf` does with `%s`.
use Prim.Native.String
use Prim.Native.String.{String}

infixr 65 ◌<>◌
abbrev pub ◌<>◌ : String → String → String
s <> t = String.◌++◌ s t
