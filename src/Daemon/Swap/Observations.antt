-- ===== src/Daemon/Swap/Observations.antt =====
-- What is observed of a contract that is funded in a block and claimed in the pool.
use qday_walletd.Common.{inl, String, ◌≡◌, refl, ◌↔◌, ◌⊎◌, arith, true, false, some, [], ◌∷◌, All}
use qday_walletd.Types.{ok, Transaction, unsigned, other, QdayKeys}
use qday_walletd.Sample.{platform}
use qday_walletd.Meta.Swaps.{Swap}
use qday_walletd.Daemon.Machine.{Event, transaction_data}
use qday_walletd.Daemon.Swap.Keys.{swap_keys_view, parse_swap_keys}
use qday_walletd.Daemon.Swap.Accepted.{readdressed, parse_swap_keys-swap_keys_view}
use qday_walletd.Daemon.Swap.Observe.{Observed, lookup, replay, replay_back, bare_view}
use qday_walletd.Daemon.Swap.Revealed.{IsSound}
use qday_walletd.Daemon.Swap.Sound.{observed-AllSound}
use qday_walletd.Daemon.Swap.Final.{replay-lookup}
use qday_walletd.Daemon.Swap.View.{aggregate_swap_status}
use qday_walletd.Daemon.Swap.Settled.{FirstFinal, aggregate_swap_status-FirstFinal}

abbrev contract : Swap
contract = record {
  swap_id = "swap-1";
  role = "recipient";
  recipient = record { classical = 3; reserve = 7 };
  refund = record { classical = 4; reserve = 8 };
  secret_hash = 2;
  refund_height = 50;
  address = 12;
  created_at = 3_000_000_000;
}

abbrev funding : Transaction
funding = record {
  inputs = [];
  outputs = record { value = 5; address = 12 } ∷ [];
  miner_fee = 1;
  arbitrary_data = [];
}

abbrev spending : Transaction
spending = record {
  inputs =
      record {
        parent = record {
          id = 200;
          output = record { value = 5; address = 12 };
          maturity_height = 16;
        };
        satisfied_policy = unsigned (other 2);
      }
      ∷ [];
  outputs = [];
  miner_fee = 2;
  arbitrary_data = [];
}

abbrev event : Transaction → Event
event txn = record {
  id = 1;
  kind = "v2Transaction";
  index = record { height = 15; id = 2015 };
  confirmations = 5;
  maturity_height = 16;
  timestamp = 9;
  content = transaction_data txn;
}

observed-AllSound_example : All (IsSound platform contract) (
    replay platform contract false
      (event spending ∷ [])
      (replay_back platform contract true (event funding ∷ []) []))
observed-AllSound_example =
    observed-AllSound platform contract (event funding ∷ []) (event spending ∷ [])

abbrev spent_output : Observed
spent_output = record {
  view = record (bare_view ".." ".....") { status = "claimed"; spend_height = some 15 };
  confirmed = true;
  spent = true;
}

replay-lookup_example :
    lookup ".." (replay platform contract false (event spending ∷ []) (spent_output ∷ []))
    ≡ some spent_output
replay-lookup_example =
    replay-lookup platform contract (event spending ∷ []) (spent_output ∷ []) ".." spent_output refl
      refl

aggregate_swap_status-FirstFinal_example :
    (aggregate_swap_status (spent_output.view ∷ []) [] ≡ "claimed")
    ↔ FirstFinal "claimed" (spent_output.view ∷ [])
aggregate_swap_status-FirstFinal_example =
    aggregate_swap_status-FirstFinal "claimed" (spent_output.view ∷ []) [] (inl refl)

abbrev session : QdayKeys
session = record { classical = 3; reserve = 7 }

abbrev own : String
own = "..."

parse_swap_keys-swap_keys_view_example :
    (parse_swap_keys platform "counterparty" (readdressed platform session own) ≡ ok session)
    ↔ ((own ≡ "") ⊎ (own ≡ (swap_keys_view platform session).address))
parse_swap_keys-swap_keys_view_example =
    parse_swap_keys-swap_keys_view platform "counterparty" session own (omega arith) (omega arith)
      refl
