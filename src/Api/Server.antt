-- ===== src/Api/Server.antt =====
-- internal/api/api.go: the handlers. Every one of them answers, so it is an action that returns a
-- response. The headers of a response, and the delay of an unlock, are not modelled.
use qday_walletd.Common.{
  ℕ, String, str_append, Bool, true, false, Option, none, some, List, if◌then◌else◌, str_eq,
}
use qday_walletd.Types.{Platform, error_text, Result, ok, err}
use qday_walletd.Daemon.Machine.{World, Action, pure, attempt, ◌>>=◌}
use qday_walletd.Daemon.Balance.{Balance, Status, balance, status}
use qday_walletd.Daemon.Deposits.{Deposit, deposits}
use qday_walletd.Daemon.Wallet.{AddressView, unlock, lock, addresses, new_deposit_address}
use qday_walletd.Daemon.Withdraw.{
  WithdrawalView, create_withdrawal, show_withdrawal, show_withdrawals,
}
use qday_walletd.Daemon.Swap.Action.{SwapActionView}
use qday_walletd.Daemon.Swap.View.{SwapView, show_swap, show_swaps}
use qday_walletd.Daemon.Swap.Session.{SwapKeyView, create_swap_keys}
use qday_walletd.Daemon.Swap.Register.{register_swap}
use qday_walletd.Daemon.Swap.Fund.{fund_swap}
use qday_walletd.Daemon.Swap.Spend.{claim_swap, refund_swap}
use qday_walletd.Api.Requests.{Request, Route, Decoder, is_authorized, pagination}

-- The value that is written as JSON.
pub data Body : Type 0 where
  failed : String → Body
  alive : Body
  status_body : Status → Body
  lock_body : Bool → Body
  addresses_body : List AddressView → ℕ → ℕ → ℕ → Body
  address_body : AddressView → Body
  balance_body : Balance → Body
  deposits_body : List Deposit → ℕ → Body
  withdrawals_body : List WithdrawalView → ℕ → ℕ → Body
  withdrawal_body : WithdrawalView → Body
  keys_body : SwapKeyView → Body
  swaps_body : List SwapView → ℕ → ℕ → Body
  swap_body : SwapView → Body
  action_body : SwapActionView → Body

pub record Response : Type 0 where
  pub status : ℕ
  pub body : Body

-- `writeJSON` and `writeError`
abbrev pub write_json : ℕ → Body → Response
write_json code body = record { status = code; body = body }

abbrev pub write_error : ℕ → String → Response
write_error code message = write_json code (failed message)

abbrev is_json : Result String → Bool
is_json (ok media) = str_eq media "application/json"
is_json (err e) = false

module _ {A : Type 0} where
  -- The answer to a call: its value, or its error under a status of its own.
  abbrev pub answer : ℕ → (A → Body) → Result A → Response
  answer code body (ok a) = write_json 200 (body a)
  answer code body (err e) = write_error code (error_text e)

  -- The answer to a lookup.
  abbrev pub answer_found : ℕ → String → (A → Body) → Result (Option A) → Response
  answer_found code missing body (ok (some a)) = write_json 200 (body a)
  answer_found code missing body (ok none) = write_error 404 missing
  answer_found code missing body (err e) = write_error code (error_text e)

  -- The answer to a call that may have created what it returns.
  abbrev pub answer_created : (A → Body) → Result (A × Bool) → Response
  answer_created body (ok (a, true)) = write_json 201 (body a)
  answer_created body (ok (a, false)) = write_json 200 (body a)
  answer_created body (err e) = write_error 400 (error_text e)

  unfoldable pub reply : Action A → (Result A → Response) → Action Response
  reply m f = do r ← attempt m; pure (f r)

  abbrev pub whole_value : Bool → Result A → (A → Action Response) → Action Response
  whole_value single (err e) next =
      pure (write_error 400 (str_append "invalid JSON: " (error_text e)))
  whole_value true (ok a) next = next a
  whole_value false (ok a) next = pure (write_error 400 "request body must contain one JSON value")

  -- `decode`, and the handler behind it.
  unfoldable pub decode :
      Decoder → Request → (String → Result A) → (A → Action Response) → Action Response
  decode d request read next =
      let inside = whole_value (d.one_value request.body) (read request.body) next in
      if is_json (d.media_type request.content_type)
      then inside
      else pure (write_error 415 "Content-Type must be application/json")

abbrev paged : Result (ℕ × ℕ) → (ℕ → ℕ → Action Response) → Action Response
paged (err e) next = pure (write_error 400 (error_text e))
paged (ok (limit, offset)) next = next limit offset

-- The status of a service that is not in step with the chain.
abbrev pub ready_response : Result Status → Response
ready_response (err e) = write_error 503 (error_text e)
ready_response (ok s) = write_json (if s.synced then 200 else 503) (status_body s)

module _ (p : Platform) (w : World) (d : Decoder) (request : Request) where
  -- The handlers, named after those of the source.
  abbrev handle_ready : Action Response
  handle_ready = reply (status p w) ready_response

  abbrev handle_status : Action Response
  handle_status = reply (status p w) (answer 500 status_body)

  abbrev handle_unlock : Action Response
  handle_unlock =
      decode d request d.read_password
        λ password. reply (unlock p w password) (answer 401 (λ _. lock_body true))

  abbrev handle_lock : Action Response
  handle_lock = decode d request d.read_empty λ u. reply lock (answer 500 (λ _. lock_body false))

  abbrev handle_addresses : Action Response
  handle_addresses = paged (pagination request) λ limit offset.
      reply (addresses p w limit offset) (answer 500 (λ a. addresses_body a.0 a.1 limit offset))

  abbrev handle_create_address : Action Response
  handle_create_address =
      decode d request d.read_reference
        λ reference. reply (new_deposit_address p w reference) (answer 400 address_body)

  abbrev handle_balance : Action Response
  handle_balance = reply (balance p w) (answer 503 balance_body)

  abbrev handle_deposits : Action Response
  handle_deposits =
      paged (pagination request)
        λ limit offset. reply (deposits p w limit offset) (answer 500 (λ a. deposits_body a.0 a.1))

  abbrev handle_withdrawals : Action Response
  handle_withdrawals = paged (pagination request) λ limit offset.
      reply (show_withdrawals p w limit offset)
        (answer 500 (λ vs. withdrawals_body vs limit offset))

  abbrev handle_create_withdrawal : Action Response
  handle_create_withdrawal =
      decode d request d.read_withdrawal
        λ r. reply (create_withdrawal p w r) (answer_created withdrawal_body)

  abbrev handle_withdrawal : String → Action Response
  handle_withdrawal request_id =
      reply (show_withdrawal p w request_id)
        (answer_found 500 "withdrawal not found" withdrawal_body)

  abbrev handle_create_swap_keys : Action Response
  handle_create_swap_keys =
      decode d request d.read_swap_id
        λ swap_id. reply (create_swap_keys p w swap_id) (answer_created keys_body)

  abbrev handle_swaps : Action Response
  handle_swaps = paged (pagination request) λ limit offset.
      reply (show_swaps p w limit offset) (answer 503 (λ vs. swaps_body vs limit offset))

  abbrev handle_register_swap : Action Response
  handle_register_swap =
      decode d request d.read_register λ r. reply (register_swap p w r) (answer_created swap_body)

  abbrev handle_swap : String → Action Response
  handle_swap swap_id =
      reply (show_swap p w swap_id) (answer_found 503 "atomic swap not found" swap_body)

  abbrev handle_fund_swap : String → Action Response
  handle_fund_swap swap_id =
      decode d request d.read_fund λ r. reply (fund_swap p w swap_id r) (answer_created action_body)

  abbrev handle_claim_swap : String → Action Response
  handle_claim_swap swap_id =
      decode d request d.read_spend
        λ r. reply (claim_swap p w swap_id r) (answer_created action_body)

  abbrev handle_refund_swap : String → Action Response
  handle_refund_swap swap_id =
      decode d request d.read_spend
        λ r. reply (refund_swap p w swap_id r) (answer_created action_body)

  -- The handler of a pattern.
  unfoldable pub handle : Route → Action Response
  handle Route.healthz = pure (write_json 200 alive)
  handle Route.readyz = handle_ready
  handle Route.status = handle_status
  handle Route.unlock = handle_unlock
  handle Route.lock = handle_lock
  handle Route.addresses = handle_addresses
  handle Route.create_address = handle_create_address
  handle Route.balance = handle_balance
  handle Route.deposits = handle_deposits
  handle Route.withdrawals = handle_withdrawals
  handle Route.create_withdrawal = handle_create_withdrawal
  handle (Route.withdrawal request_id) = handle_withdrawal request_id
  handle Route.create_swap_keys = handle_create_swap_keys
  handle Route.swaps = handle_swaps
  handle Route.register_swap = handle_register_swap
  handle (Route.swap swap_id) = handle_swap swap_id
  handle (Route.fund_swap swap_id) = handle_fund_swap swap_id
  handle (Route.claim_swap swap_id) = handle_claim_swap swap_id
  handle (Route.refund_swap swap_id) = handle_refund_swap swap_id

  -- `auth`
  unfoldable pub authorized : String → Action Response → Action Response
  unfolding is_authorized
  authorized token next =
      if is_authorized token request then next else pure (write_error 401 "authentication required")

  -- What `New` serves: all but two of the patterns want the token.
  unfoldable pub serve : String → Route → Action Response
  serve token Route.healthz = handle Route.healthz
  serve token Route.readyz = handle Route.readyz
  serve token route = authorized token (handle route)
