-- ===== src/Derive/Tests.antt =====
-- Runs of the key derivation, and its theorem at concrete sessions.
use qday_walletd.Common.{◌≡◌, refl, arith, [], length, ◌∷◌}
use qday_walletd.Derive.{child_message, swap_message, seed}
use qday_walletd.Sample.{platform}
use qday_walletd.Derive.Separation.{child, message-injective}

length-child_message : length (child_message 258) ≡ 29
unfolding child_message
length-child_message = refl

length-swap_message : length (swap_message "order-17") ≡ 36
unfolding swap_message
length-swap_message = refl

-- A MAC that returns its text behind the domain: the seed is the index.
seed_run : seed platform [] 3 ≡ 0 ∷ 0 ∷ 0 ∷ 0 ∷ 0 ∷ 0 ∷ 0 ∷ 3 ∷ []
unfolding seed
seed_run = refl

message-injective_example : child 7 ≡ child 7
message-injective_example = message-injective (child 7) (child 7) (omega arith) (omega arith) refl
