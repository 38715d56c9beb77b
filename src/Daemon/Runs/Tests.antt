-- ===== src/Daemon/Runs/Tests.antt =====
-- A withdrawal is submitted, a swap session is stored, the daemon is restarted, and left to defend.
use qday_walletd.Common.{◌≡◌, refl, none, [], ◌∷◌}
use qday_walletd.Sample.{platform}
use qday_walletd.Daemon.Machine.{Daemon}
use qday_walletd.Daemon.Journaled.{AllJournaled}
use qday_walletd.Daemon.Withdraw.Tests.{
  funded_world, funded, request, after, stored_later, session_stored, submitted, payment,
  one_payment,
}
use qday_walletd.Daemon.Runs.{withdrawing, defending, run_call, Reaches, here, call, write, restart}
use qday_walletd.Daemon.Runs.Recorded.{Reaches-AllJournaled}

abbrev stopped : Daemon
stopped = record after { db = stored_later; master = none }

abbrev ended : Daemon
ended = run_call platform funded_world defending stopped

run : Reaches platform funded ended
unfolding run_call
run =
    call (restart (write (call here funded_world (withdrawing request)) session_stored))
      funded_world defending

-- The first call submitted a payment.
submits : submitted after.trace ≡ (payment ∷ []) ∷ []
submits = one_payment

Reaches-AllJournaled_example : AllJournaled platform ended
Reaches-AllJournaled_example = Reaches-AllJournaled platform funded ended refl run
