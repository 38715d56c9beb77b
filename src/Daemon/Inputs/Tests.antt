-- ===== src/Daemon/Inputs/Tests.antt =====
-- Runs of the checks of what a client sends.
use qday_walletd.Common.{String, ◌≡◌, ◌≢◌, refl, true, false, ◌≤◌, length, codes, text_bytes}
use qday_walletd.Types.{ok}
use qday_walletd.Derive.Separation.{swap, IsSession}
use qday_walletd.Sample.{platform, parse}
use qday_walletd.Daemon.Inputs.{
  valid_reference, valid_request_id, parse_positive_currency, default_fee,
}
use qday_walletd.Daemon.Inputs.Accepted.{valid_request_id-IsSession}

accepted : valid_request_id "order:17" ≡ true
unfolding valid_request_id text_bytes
accepted = refl

refused : valid_request_id "order 17" ≡ false
unfolding valid_request_id text_bytes
refused = refl

not_printable : valid_reference "a b" ≡ false
unfolding valid_reference text_bytes
not_printable = refl

zero_fee : default_fee platform "" ≡ ok 1
unfolding default_fee
zero_fee = refl

five : parse_positive_currency platform "....." "amountAtomic" ≡ ok 5
unfolding parse_positive_currency text_bytes parse
five = refl

valid_request_id-IsSession_example :
    (◌≢◌ {A = String} "order:17" "")
    × (length (codes "order:17") ≤ 128)
    × IsSession (swap "order:17")
valid_request_id-IsSession_example = valid_request_id-IsSession "order:17" accepted
