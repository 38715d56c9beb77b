-- ===== src/Daemon/Swap/Tests.antt =====
-- A contract that is funded, claimed, and watched, at a journal with one session.
use qday_walletd.Common.{
  ◌≡◌, refl, ap, true, none, some, List, [], ◌∷◌, ◌++◌, be_bytes, be_value, arith, text_bytes, map,
  trim_space, hex_encode, hex_decode,
}
use qday_walletd.Types.{
  ok, Transaction, SiacoinElement, SiacoinInput, AtomicSwap, ConsensusState, add_with_overflow, add,
  sub, unsigned, other,
}
use qday_walletd.Sample.{platform, print, parse, encode, encode_inputs, encode_outputs}
use qday_walletd.Derive.{swap_keys, keys}
use qday_walletd.Meta.Tables.{AddressRow, empty, order_by}
use qday_walletd.Meta.Addresses.{next_index, add_address, address_by_hash}
use qday_walletd.Meta.Swaps.{Swap, swap_row, swap, swap_key}
use qday_walletd.Meta.Actions.{swap_action, add_swap_action}
use qday_walletd.Daemon.Inputs.{parse_positive_currency, default_fee}
use qday_walletd.Daemon.Machine.{World, Daemon, machine, add_pool}
use qday_walletd.Daemon.Sample.{world, started, tip, tip_state, signed_spend}
use qday_walletd.Daemon.Chain.{network_synced, broadcast}
use qday_walletd.Daemon.Outputs.{spendable_outputs}
use qday_walletd.Daemon.Signing.{signature_for}
use qday_walletd.Daemon.Transfer.{
  choose, change_outputs, perform_defend_work, sign_inputs, build_custody_transfer,
}
use qday_walletd.Daemon.Transfer.Parts.{parents, SameCoins}
use qday_walletd.Daemon.Wallet.{master_seed, register_address, new_address}
use qday_walletd.Daemon.Swap.Keys.{hash_text, parse_hash}
use qday_walletd.Daemon.Swap.Action.{
  SwapActionView, swap_action_view, broadcast_action, submit_swap_action,
}
use qday_walletd.Daemon.Swap.Fund.{FundSwapRequest, record_action, fund, fund_swap}
use qday_walletd.Daemon.Swap.Spend.{
  SpendSwapRequest, claiming, output_from, find_swap_output, build_spend, spend, spend_swap,
}
use qday_walletd.Daemon.Swap.Funded.{IsFunding, fund_swap-IsFunding}
use qday_walletd.Daemon.Swap.Spent.{SignsOnly, IsSwapSpend, spend_swap-IsSwapSpend}

abbrev contract : Swap
contract = record {
  swap_id = "swap-1";
  role = "recipient";
  recipient = record { classical = 954; reserve = 7 };
  refund = record { classical = 4; reserve = 8 };
  secret_hash = 2;
  refund_height = 50;
  address = 1002;
  created_at = 3_000_000_000;
}

abbrev owner_row : AddressRow
owner_row = record {
  child_index = 0;
  address = ".";
  public_keys = be_bytes 32 1 ++ be_bytes 32 7;
  reference = some "customer-42";
  kind = "deposit";
  created_at = 7;
}

abbrev registered : Daemon
registered = started (record empty {
  addresses = owner_row ∷ [];
  swap_keys =
      record { swap_id = "swap-1"; public_keys = be_bytes 32 954 ++ be_bytes 32 7; created_at = 0 }
      ∷ [];
  swaps = swap_row platform contract ∷ [];
})

abbrev active : ConsensusState
active = record tip_state { v1_height = 10 }

abbrev coin : SiacoinElement
coin = record { id = 77; output = record { value = 9; address = 1 }; maturity_height = 2 }

abbrev locked_coin : SiacoinElement
locked_coin = record { id = 8; output = record { value = 9; address = 1002 }; maturity_height = 2 }

abbrev active_world : World
active_world = record world {
  tip_state = λ _. active;
  unspent = λ _ offset limit. ok (coin ∷ [], tip);
  address_outputs = λ _ address offset limit. ok (locked_coin ∷ [], tip);
}

abbrev fund_request : FundSwapRequest
fund_request = record { amount_atomic = "..."; fee_atomic = ".."; expected_unit_atomic = "." }

abbrev funded_view : SwapActionView
funded_view = record {
  action_id = "swap-1:fund";
  kind = "fund";
  output_id = "";
  transaction_id = ".....";
  destination = print 1002;
  amount = record { atomic = "..."; qday = "..." };
  fee = record { atomic = ".."; qday = ".." };
  basis = "....................";
  status = "queued";
  confirmations = 0;
  block_height = none;
  block_id = "";
  created_at = 7_000_000_000;
  last_error = "";
}

abbrev funded : Daemon
funded = (fund_swap platform active_world "swap-1" fund_request registered).1

funds :
    fund_swap platform active_world "swap-1" fund_request registered
    ≡ (ok (funded_view, true), funded)
unfolding fund_swap machine text_bytes parse parse_positive_currency default_fee swap swap_action
    fund master_seed network_synced print build_custody_transfer add_with_overflow spendable_outputs
    choose address_by_hash be_bytes be_value add sub order_by change_outputs new_address next_index
    keys add_address register_address perform_defend_work sign_inputs signature_for record_action
    add_swap_action encode encode_inputs encode_outputs submit_swap_action add_pool broadcast_action
    broadcast swap_action_view
funds = refl

fund_swap-IsFunding_example :
    IsFunding platform active_world "swap-1" fund_request registered funded_view
fund_swap-IsFunding_example =
    fund_swap-IsFunding platform active_world "swap-1" fund_request registered funded
      (funded_view, true) funds refl

parents-signed :
    (c : AtomicSwap) (inputs : List SiacoinInput)
    → parents (
        map
          (λ (i : SiacoinInput). record i { satisfied_policy = unsigned (other c.secret_hash) })
          inputs)
      ≡ parents inputs
parents-signed c [] = refl
parents-signed c (i ∷ inputs) = ap (λ t. i.parent ∷ t) (parents-signed c inputs)

signed-SameCoins :
    (txn r : Transaction) (c : AtomicSwap) → ok (signed_spend txn c) ≡ ok r → SameCoins txn r
signed-SameCoins txn r c e =
    let same : signed_spend txn c ≡ r = ground arith in
    rw (← same) (record { inputs = parents-signed c txn.inputs; outputs = refl; fee = refl })

signs : SignsOnly active_world
signs = record {
  claim = λ t cs txn r c k secret e. signed-SameCoins txn r c e;
  refund = λ t cs txn r c k e. signed-SameCoins txn r c e;
}

abbrev claim_request : SpendSwapRequest
claim_request = record { output_id = " ........ "; fee_atomic = ".."; secret = hash_text 1 }

abbrev claimed_view : SwapActionView
claimed_view = record {
  action_id = "swap-1:claim:........";
  kind = "claim";
  output_id = "........";
  transaction_id = "....";
  destination = "..";
  amount = record { atomic = "......."; qday = "......." };
  fee = record { atomic = ".."; qday = ".." };
  basis = "....................";
  status = "queued";
  confirmations = 0;
  block_height = none;
  block_id = "";
  created_at = 7_000_000_000;
  last_error = "";
}

abbrev claimed : Daemon
claimed = (spend_swap platform active_world "swap-1" claiming claim_request registered).1

claims :
    spend_swap platform active_world "swap-1" claiming claim_request registered
    ≡ (ok (claimed_view, true), claimed)
unfolding spend_swap machine text_bytes parse parse_positive_currency default_fee swap swap_action
    spend swap_keys swap_key build_spend find_swap_output output_from parse_hash hex_encode
    hex_decode trim_space master_seed network_synced print be_bytes be_value sub new_address
    next_index keys add_address register_address record_action add_swap_action encode encode_inputs
    encode_outputs submit_swap_action add_pool broadcast_action broadcast swap_action_view
claims = refl

spend_swap-IsSwapSpend_example :
    IsSwapSpend platform active_world "swap-1" claiming claim_request registered claimed_view
spend_swap-IsSwapSpend_example =
    spend_swap-IsSwapSpend platform active_world signs "swap-1" claiming claim_request registered
      claimed (claimed_view, true) claims refl
