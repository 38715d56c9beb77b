-- ===== src/Daemon/Swap/Worth.antt =====
-- internal/daemon/swap.go: what an observed output is worth.
use qday_walletd.Common.{ℕ, ◌+◌, not, ◌&&◌, some, if◌then◌else◌}
use qday_walletd.Types.{Platform, SiacoinElement, ConsensusState, Currency, Result, ok, ◌>>=◌}
use qday_walletd.Daemon.Withdraw.{amount}
use qday_walletd.Daemon.Swap.Observe.{SwapOutputView, Observed}

module _ (p : Platform) (cs : ConsensusState) where
  -- What an output is worth to a transaction in the next block.
  abbrev pub output_worth : Currency → ℕ → Currency
  output_worth value maturity_height =
      let element : SiacoinElement = record {
        id = 0;
        output = record { value = value; address = 0 };
        maturity_height = maturity_height;
      } in
      p.qday_value cs element (cs.index.height + 1)

  abbrev pub shown_value : Observed → Currency → SwapOutputView
  shown_value o value =
      let unit = p.qday_units cs cs.index.height in
      record o.view {
        value = amount p value unit;
        spendable =
            if not o.spent && o.confirmed
            then some (amount p (output_worth value o.view.maturity_height) unit)
            else o.view.spendable;
      }

  unfoldable pub shown_output : Observed → Result SwapOutputView
  shown_output o = do value ← p.parse_currency o.view.value.atomic; ok (shown_value o value)
