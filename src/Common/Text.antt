-- ===== src/Common/Text.antt =====
-- Texts: the code points of a native text.
use Prim.Native.Nat.{ℕ}
use Prim.Native.Char.{code}
use Prim.Native.String.{String, ◌++◌ as text_append}
use mathlib.Core.List.{List, [], ◌∷◌}

abbrev pub codes : String → List ℕ
codes String.[] = []
codes (String.◌∷◌ c s) = code c ∷ codes s

-- `+` on texts.
abbrev pub str_append : String → String → String
str_append s t = text_append s t
