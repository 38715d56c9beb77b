-- ===== src/Daemon/Runs/Recorded.antt =====
-- internal/daemon: in a run of calls, what they submit to the pool was recorded on disk before.
use qday_walletd.Common.{◌≡◌, String, Option, none, some, Bytes, []}
use qday_walletd.Types.{Platform}
use qday_walletd.Meta.Addresses.{Address}
use qday_walletd.Meta.Swaps.{SwapKey, Swap}
use qday_walletd.Daemon.Machine.{World, Daemon, wake}
use qday_walletd.Daemon.Journaled.{AllJournaled, timeless, about}
use qday_walletd.Daemon.Invariant.{
  Preserves, Preserves-pure, Preserves-fail, Preserves-emit, Preserves-then, Preserves-bind,
  Preserves-ask_result, preserves_rules,
}
use qday_walletd.Daemon.Wallet.{
  set_master, unlock, lock, new_deposit_address, deposit_address, register_address,
}
use qday_walletd.Daemon.Wallet.Preserved.{new_address-Preserves, master_seed-Preserves}
use qday_walletd.Daemon.Withdraw.Journaled.{create_withdrawal-AllJournaled}
use qday_walletd.Daemon.Defend.Journaled.{auto_defend-AllJournaled}
use qday_walletd.Daemon.Swap.Session.{session_keys, create_swap_keys}
use qday_walletd.Daemon.Swap.Register.{
  RegisterSwapRequest, known_session, watch_swap, bind_swap, register_swap,
}
use qday_walletd.Daemon.Swap.Kept.{swap_view-Preserves}
use qday_walletd.Daemon.Swap.Journaled.{fund_swap-AllJournaled, spend_swap-AllJournaled}
use qday_walletd.Daemon.Runs.{
  Call, unlocking, locking, depositing, withdrawing, creating_keys, registering, funding, spending,
  defending, run_call, Reaches, here, call, write, restart,
}

module _ (p : Platform) (w : World) where
  set_master-Preserves : (m : Option Bytes) → Preserves (AllJournaled p) (set_master m)
  set_master-Preserves m = record { run = λ s h. h }

  unlock-Preserves : (password : String) → Preserves (AllJournaled p) (unlock p w password)
  unfolding unlock
  unlock-Preserves password = Preserves-bind _ _ (Preserves-ask_result (timeless p) _) (λ seed.
      Preserves-then _ _ (set_master-Preserves (some seed))
        (Preserves-emit wake (λ t held. (tt, held))))

  deposit_address-Preserves :
      (reference : String) (existing : Option Address)
      → Preserves (AllJournaled p) (deposit_address p w reference existing)
  unfolding register_address
  deposit_address-Preserves reference none =
      let i = timeless p in let j = about p in search (preserves_rules, new_address-Preserves, i, j)
  deposit_address-Preserves reference (some a) =
      let i = timeless p in let j = about p in search (preserves_rules, i, j)

  new_deposit_address-Preserves :
      (reference : String) → Preserves (AllJournaled p) (new_deposit_address p w reference)
  unfolding new_deposit_address
  new_deposit_address-Preserves reference =
      let i = timeless p in search (preserves_rules, deposit_address-Preserves, i)

  session_keys-Preserves :
      (swap_id : String) (existing : Option SwapKey)
      → Preserves (AllJournaled p) (session_keys p w swap_id existing)
  unfolding session_keys
  session_keys-Preserves swap_id (some k) = Preserves-pure _
  session_keys-Preserves swap_id none =
      let i = timeless p in
      let j = about p in search (preserves_rules, master_seed-Preserves, i, j) depth 20

  create_swap_keys-Preserves :
      (swap_id : String) → Preserves (AllJournaled p) (create_swap_keys p w swap_id)
  unfolding create_swap_keys
  create_swap_keys-Preserves swap_id =
      let i = timeless p in search (preserves_rules, session_keys-Preserves, i)

  known_session-Preserves :
      (found : Option SwapKey) → Preserves (AllJournaled p) (known_session found)
  known_session-Preserves none = Preserves-fail _
  known_session-Preserves (some k) = Preserves-pure _

  watch_swap-Preserves : (s : Swap) → Preserves (AllJournaled p) (watch_swap p w s)
  unfolding watch_swap
  watch_swap-Preserves s = let i = timeless p in let j = about p in search (preserves_rules, i, j)

  bind_swap-Preserves :
      (s : Swap) (existing : Option Swap) → Preserves (AllJournaled p) (bind_swap p w s existing)
  unfolding bind_swap
  bind_swap-Preserves s (some t) =
      let i = timeless p in search (preserves_rules, watch_swap-Preserves, swap_view-Preserves, i)
  bind_swap-Preserves s none =
      let i = timeless p in
      let j = about p in search (preserves_rules, watch_swap-Preserves, swap_view-Preserves, i, j)

  register_swap-Preserves :
      (request : RegisterSwapRequest) → Preserves (AllJournaled p) (register_swap p w request)
  unfolding register_swap
  register_swap-Preserves request =
      let i = timeless p in
      search (preserves_rules, known_session-Preserves, bind_swap-Preserves, i) depth 20

  run_call-AllJournaled :
      (c : Call) (s : Daemon) → AllJournaled p s → AllJournaled p (run_call p w c s)
  unfolding run_call lock
  run_call-AllJournaled (unlocking password) s h = (unlock-Preserves password).run s h
  run_call-AllJournaled locking s h = h
  run_call-AllJournaled (depositing reference) s h =
      (new_deposit_address-Preserves reference).run s h
  run_call-AllJournaled (withdrawing request) s h = create_withdrawal-AllJournaled p w request s h
  run_call-AllJournaled (creating_keys swap_id) s h = (create_swap_keys-Preserves swap_id).run s h
  run_call-AllJournaled (registering request) s h = (register_swap-Preserves request).run s h
  run_call-AllJournaled (funding swap_id request) s h =
      fund_swap-AllJournaled p w swap_id request s h
  run_call-AllJournaled (spending swap_id side request) s h =
      spend_swap-AllJournaled p w swap_id side request s h
  run_call-AllJournaled defending s h = auto_defend-AllJournaled p w s h

-- In every state that calls of the service under its mutex, restarts of the daemon, and statements of
-- the store by others between the calls lead to from one in which nothing has been submitted: whatever
-- the calls submitted to the pool was on disk when it was submitted, as the transaction of a
-- withdrawal, a DEFEND or a swap action. What a round of `rebroadcast` submits again is not covered.
pub Reaches-AllJournaled :
    (p : Platform) (s t : Daemon) → s.trace ≡ [] → Reaches p s t → AllJournaled p t
Reaches-AllJournaled p s t fresh here = rw fresh tt
Reaches-AllJournaled p s t fresh (call {t = u} run w c) =
    run_call-AllJournaled p w c u (Reaches-AllJournaled p s u fresh run)
Reaches-AllJournaled p s t fresh (write run w) = Reaches-AllJournaled p s _ fresh run
Reaches-AllJournaled p s t fresh (restart run) = Reaches-AllJournaled p s _ fresh run
