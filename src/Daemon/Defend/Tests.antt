-- ===== src/Daemon/Defend/Tests.antt =====
-- One output near the end of its shield is moved.
use qday_walletd.Common.{ℕ, ◌≡◌, refl, some, [], ◌∷◌, ◌++◌, be_bytes, be_value}
use qday_walletd.Types.{ok, SiacoinElement, Transaction, unsigned, other, add, sub}
use qday_walletd.Derive.{keys}
use qday_walletd.Sample.{platform, print, parse}
use qday_walletd.Meta.Tables.{AddressRow, empty, order_by}
use qday_walletd.Meta.Addresses.{next_index, add_address, address_by_hash}
use qday_walletd.Daemon.Machine.{World, Daemon, machine}
use qday_walletd.Daemon.Sample.{world, started, tip, tip_state}
use qday_walletd.Daemon.Steps.{Yields}
use qday_walletd.Daemon.Defend.{select, build_defend}
use qday_walletd.Daemon.Outputs.{spendable_outputs}
use qday_walletd.Daemon.Signing.{signature_for}
use qday_walletd.Daemon.Transfer.{perform_defend_work, sign_inputs}
use qday_walletd.Daemon.Wallet.{master_seed, register_address, new_address}
use qday_walletd.Daemon.Defend.Conserved.{IsDefend, Yields-build_defend}

abbrev coin : SiacoinElement
coin = record { id = 77; output = record { value = 9; address = 1 }; maturity_height = 12 }

abbrev funded_world : World
funded_world = record world { unspent = λ _ offset limit. ok (coin ∷ [], tip) }

abbrev owner_row : AddressRow
owner_row = record {
  child_index = 0;
  address = ".";
  public_keys = be_bytes 32 1 ++ be_bytes 32 7;
  reference = some "customer-42";
  kind = "deposit";
  created_at = 7;
}

abbrev funded : Daemon
funded = started (record empty { addresses = owner_row ∷ [] })

abbrev moved : Transaction
moved = record {
  inputs = record { parent = coin; satisfied_policy = unsigned (other 1) } ∷ [];
  outputs = record { value = 8; address = 2 } ∷ [];
  miner_fee = 1;
  arbitrary_data = 3 ∷ [];
}

moves : (build_defend platform funded_world tip_state funded).0 ≡ ok (moved, (2, 8))
unfolding build_defend machine master_seed spendable_outputs select address_by_hash be_bytes
    be_value add sub order_by new_address next_index keys add_address register_address
    perform_defend_work sign_inputs signature_for print parse
moves = refl

Yields-build_defend_example : Yields (build_defend platform funded_world tip_state) funded (λ r _.
    (k : ℕ) × IsDefend platform funded_world tip_state (funded_world.pool k) r.0 r.1.0 r.1.1)
Yields-build_defend_example = Yields-build_defend platform funded_world tip_state funded
