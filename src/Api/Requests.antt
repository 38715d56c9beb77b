-- ===== src/Api/Requests.antt =====
-- internal/api/api.go: what a request carries, who may send it, and the page it asks for.
use qday_walletd.Common.{
  ℕ, ◌+◌, ◌-◌, ◌*◌, ◌^◌, String, Bool, true, false, not, ◌&&◌, ◌||◌, Option, none, some, List, [],
  ◌∷◌, codes, leb, ltb, ◌==◌, str_eq, if◌then◌else◌,
}
use qday_walletd.Types.{Result, ok, err, failure, ◌>>=◌, guard, ◌>>◌}
use qday_walletd.Daemon.Withdraw.{WithdrawalRequest}
use qday_walletd.Daemon.Swap.Register.{RegisterSwapRequest}
use qday_walletd.Daemon.Swap.Fund.{FundSwapRequest}
use qday_walletd.Daemon.Swap.Spend.{SpendSwapRequest}

-- The parts of a request that the handlers read: two headers, two values of the query, the body.
pub record Request : Type 0 where
  pub authorization : String
  pub content_type : String
  pub limit : String
  pub offset : String
  pub body : String

-- The patterns of `New`, with the values of their paths.
pub data Route : Type 0 where
  healthz readyz status unlock lock addresses create_address balance deposits : Route
  withdrawals create_withdrawal create_swap_keys swaps register_swap : Route
  withdrawal swap fund_swap claim_swap refund_swap : String → Route

-- Package mime's `ParseMediaType`, and package encoding/json's decoder for the bodies of the handlers,
-- without unknown fields and up to the size of a body; `one_value` says that a second call of it
-- meets the end of the body.
pub record Decoder : Type 0 where
  pub media_type : String → Result String
  pub one_value : String → Bool
  pub read_password : String → Result String
  pub read_empty : String → Result (Unit {0})
  pub read_reference : String → Result String
  pub read_withdrawal : String → Result WithdrawalRequest
  pub read_swap_id : String → Result String
  pub read_register : String → Result RegisterSwapRequest
  pub read_fund : String → Result FundSwapRequest
  pub read_spend : String → Result SpendSwapRequest

abbrev pub cut : String → String → Option String
cut String.[] s = some s
cut (String.◌∷◌ c t) String.[] = none
cut (String.◌∷◌ c t) (String.◌∷◌ d s) =
    let rest = cut t s in if str_eq (String.◌∷◌ c "") (String.◌∷◌ d "") then rest else none

abbrev pub or_whole : Option String → String → String
or_whole none s = s
or_whole (some rest) s = rest

-- `strings.TrimPrefix`
unfoldable pub trim_prefix : String → String → String
trim_prefix s prefix = or_whole (cut prefix s) s

-- The check of `auth`: texts with the same bytes are the same.
unfoldable pub is_authorized : String → Request → Bool
unfolding trim_prefix
is_authorized token request = str_eq (trim_prefix request.authorization "Bearer ") token

-- The decimal digits of a number, of which there is at least one.
abbrev pub digits_from : ℕ → List ℕ → Option ℕ
digits_from acc [] = some acc
digits_from acc (c ∷ cs) =
    let rest = digits_from (acc * 10 + (c - b'0')) cs in
    if leb b'0' c && leb c b'9' then rest else none

abbrev pub some_digits : List ℕ → Option ℕ
some_digits [] = none
some_digits (c ∷ cs) = digits_from 0 (c ∷ cs)

-- An integer of 64 bits: whether it is below zero, and its size.
abbrev pub as_integer : Bool → Option ℕ → Result (Bool × ℕ)
as_integer minus none = err (failure "strconv.Atoi: invalid syntax")
as_integer minus (some n) =
    if ltb n (2 ^ 63) || minus && n == 2 ^ 63
    then ok (minus && not (n == 0), n)
    else err (failure "strconv.Atoi: value out of range")

-- `strconv.Atoi`
unfoldable pub atoi : String → Result (Bool × ℕ)
atoi String.[] = as_integer false none
atoi (String.◌∷◌ c s) =
    if str_eq (String.◌∷◌ c "") "-"
    then as_integer true (some_digits (codes s))
    else if str_eq (String.◌∷◌ c "") "+"
    then as_integer false (some_digits (codes s))
    else as_integer false (some_digits (codes (String.◌∷◌ c s)))

-- An absent value is the default.
unfoldable pub value_or : ℕ → String → Result (Bool × ℕ)
unfolding atoi
value_or standard value = if str_eq value "" then ok (false, standard) else atoi value

-- `pagination`
unfoldable pub pagination : Request → Result (ℕ × ℕ)
unfolding value_or
pagination request = do
  limit ← value_or 50 request.limit
  offset ← value_or 0 request.offset
  guard (not (limit.0 || ltb limit.1 1 || ltb 200 limit.1 || offset.0))
      (failure "limit must be 1..200 and offset must be nonnegative")
  ok (limit.1, offset.1)
