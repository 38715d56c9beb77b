-- ===== src/Types/Amounts.antt =====
-- `types.Currency`: an unsigned 128-bit integer. As its documentation says, `Add` panics where the
-- sum does not fit, `Sub` where it would be negative, and `AddWithOverflow` reports the overflow.
use Prim.Native.Nat.{ℕ, ◌+◌, ◌-◌, ◌^◌, ◌%◌, ◌<◌}
use mathlib.Core.Path.{◌≡◌}
use mathlib.Core.Bool.{Bool}
use qday_walletd.Common.{arith, ltb, leb, if◌then◌else◌}
use qday_walletd.Types.Errors.{Result, ok, err, panic}

abbrev pub Currency : Type 0
Currency = ℕ

abbrev pub currency_limit : ℕ
currency_limit = 2 ^ 128

unfoldable pub add : Currency → Currency → Result Currency
add a b = if ltb (a + b) currency_limit then ok (a + b) else err (panic "overflow")

unfoldable pub sub : Currency → Currency → Result Currency
sub a b = if leb b a then ok (a - b) else err (panic "underflow")

unfoldable pub add_with_overflow : Currency → Currency → Currency × Bool
add_with_overflow a b = ((a + b) % currency_limit, leb currency_limit (a + b))

pub add-eq_ok : (a b c : ℕ) → add a b ≡ ok c → (c ≡ a + b) × (c < currency_limit)
unfolding add
add-eq_ok a b c e = ground arith

pub sub-eq_ok : (a b c : ℕ) → sub a b ≡ ok c → c + b ≡ a
unfolding sub
sub-eq_ok a b c e = ground arith
