-- ===== src/Daemon/Outputs/Tests.antt =====
-- The loop over the outputs of an empty index.
use qday_walletd.Common.{◌≡◌, arith, []}
use qday_walletd.Sample.{platform}
use qday_walletd.Meta.Tables.{empty}
use qday_walletd.Daemon.Sample.{world, started, tip_state}
use qday_walletd.Daemon.Outputs.{outputs_from}
use qday_walletd.Daemon.Outputs.Enough.{IsBounded, outputs_from-enough}

world-IsBounded : IsBounded world
world-IsBounded t offset page basis h e =
    let none_there : page ≡ [] = ground arith in rw none_there (omega arith)

outputs_from-enough_example :
    outputs_from platform world tip_state [] 9 0 (started empty)
    ≡ outputs_from platform world tip_state [] 2 0 (started empty)
outputs_from-enough_example =
    outputs_from-enough platform world tip_state world-IsBounded [] 8 1 0 (started empty)
      (omega arith) (omega arith)
