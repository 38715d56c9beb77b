-- ===== src/Daemon/Runs.antt =====
-- internal/daemon: the calls of the service that take its mutex `op`, one after the other. Each call may meet another node. `rebroadcast` does not take the mutex and is no
-- call here: its statements may stand between the calls, and what it submits itself is not noted.
pub mod Recorded
mod Tests
use qday_walletd.Common.{String, none}
use qday_walletd.Types.{Platform}
use qday_walletd.Meta.Tables.{Db}
use qday_walletd.Meta.Writes.{Write}
use qday_walletd.Daemon.Machine.{World, Daemon}
use qday_walletd.Daemon.Wallet.{unlock, lock, new_deposit_address}
use qday_walletd.Daemon.Withdraw.{WithdrawalRequest, create_withdrawal}
use qday_walletd.Daemon.Defend.{auto_defend}
use qday_walletd.Daemon.Swap.Session.{create_swap_keys}
use qday_walletd.Daemon.Swap.Register.{RegisterSwapRequest, register_swap}
use qday_walletd.Daemon.Swap.Fund.{FundSwapRequest, fund_swap}
use qday_walletd.Daemon.Swap.Spend.{SpendSide, SpendSwapRequest, spend_swap}

-- The calls that change the state of the service or of the node.
pub data Call : Type 0 where
  unlocking : String → Call
  locking : Call
  depositing : String → Call
  withdrawing : WithdrawalRequest → Call
  creating_keys : String → Call
  registering : RegisterSwapRequest → Call
  funding : String → FundSwapRequest → Call
  spending : String → SpendSide → SpendSwapRequest → Call
  defending : Call

module _ (p : Platform) where
  -- The state after a call, however it ended.
  unfoldable pub run_call : World → Call → Daemon → Daemon
  run_call w (unlocking password) s = (unlock p w password s).1
  run_call w locking s = (lock s).1
  run_call w (depositing reference) s = (new_deposit_address p w reference s).1
  run_call w (withdrawing request) s = (create_withdrawal p w request s).1
  run_call w (creating_keys swap_id) s = (create_swap_keys p w swap_id s).1
  run_call w (registering request) s = (register_swap p w request s).1
  run_call w (funding swap_id request) s = (fund_swap p w swap_id request s).1
  run_call w (spending swap_id side request) s = (spend_swap p w swap_id side request s).1
  run_call w defending s = (auto_defend p w s).1

  -- The states that calls lead to, each at a node of its own. Between them other statements may change
  -- the journal, and the daemon may be stopped and started, which leaves the tables and locks it.
  pub data Reaches (s : Daemon) : Daemon → Type 0 where
    here : Reaches s s
    call : {t : Daemon} → Reaches s t → (w : World) (c : Call) → Reaches s (run_call w c t)
    write :
        {t : Daemon} {db : Db} → Reaches s t → Write p t.db db → Reaches s (record t { db = db })
    restart : {t : Daemon} → Reaches s t → Reaches s (record t { master = none })
