-- ===== src/Meta/Actions/Tests.antt =====
-- Runs of the journal of swap actions, and its theorems at a concrete action.
use qday_walletd.Common.{◌≡◌, refl, none, some, [], ◌∷◌, arith, Bytes, be_bytes}
use qday_walletd.Types.{ok, Transaction}
use qday_walletd.Sample.{platform, platform-Codec, encode, encode_outputs, encode_inputs}
use qday_walletd.Meta.Tables.{Db, SwapRow, empty}
use qday_walletd.Meta.Actions.{SwapAction, add_swap_action, swap_action, swap_action_row}
use qday_walletd.Meta.Actions.RoundTrip.{IsStorable, stored, add_swap_action-swap_action}

abbrev payment : Transaction
payment = record {
  inputs = [];
  outputs = record { value = 5; address = 9 } ∷ [];
  miner_fee = 1;
  arbitrary_data = [];
}

abbrev raw : Bytes
raw = 1 ∷ 0 ∷ 0 ∷ 5 ∷ 9 ∷ []

abbrev pub funding : SwapAction
funding = record {
  action_id = "swap-1:fund";
  swap_id = "swap-1";
  kind = "fund";
  output_id = "out";
  transaction = payment;
  basis = record { height = 12; id = 4 };
  confirmed = none;
  destination = 9;
  amount = 5;
  fee = 1;
  created_at = 3_000_000_000;
  last_error = "";
}

abbrev contract_row : SwapRow
contract_row = record {
  swap_id = "swap-1";
  role = "refund";
  recipient_keys = [];
  refund_keys = [];
  secret_hash = [];
  refund_height = 50;
  contract_address = "..";
  created_at = 1;
}

abbrev pub before : Db
before = record empty { swaps = contract_row ∷ [] }

abbrev pub after : Db
after = record before { swap_actions = swap_action_row platform raw funding ∷ [] }

pub add_funding : add_swap_action platform funding before ≡ ok after
unfolding add_swap_action encode encode_outputs encode_inputs be_bytes
add_funding = refl

funding-IsStorable : IsStorable platform raw funding
unfolding encode encode_outputs encode_inputs
funding-IsStorable = record {
  encoded = refl;
  not_empty = omega arith;
  not_large = omega arith;
  basis_fits = omega arith;
  destination_fits = omega arith;
  amount_fits = omega arith;
  fee_fits = omega arith;
}

add_swap_action-swap_action_example :
    swap_action platform "swap-1" "fund" "out" after ≡ ok (some (stored funding))
add_swap_action-swap_action_example =
    add_swap_action-swap_action platform platform-Codec raw funding before after funding-IsStorable
      add_funding
