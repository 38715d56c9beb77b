-- ===== src/Daemon/Signing.antt =====
-- internal/daemon/service.go: the signature of one input, made once for each key.
use qday_walletd.Common.{ℕ, Option, none, some, List, Bytes, find_first, ◌==◌}
use qday_walletd.Types.{
  Platform, SatisfiedPolicy, Result, ok, failure, ◌>>=◌, ◌>>◌, guard, same_keys,
}
use qday_walletd.Derive.{keys}
use qday_walletd.Meta.Addresses.{Address}

-- An entry of the map `signed`.
pub record Signed : Type 0 where
  pub index : ℕ
  pub policy : SatisfiedPolicy

module _ (p : Platform) where
  make_signature : Bytes → ℕ → Address → Option Signed → Result SatisfiedPolicy
  make_signature master hash owner (some entry) = ok entry.policy
  make_signature master hash owner none = do
    pair ← keys p master owner.index
    guard (same_keys pair.public owner.public) (failure "derived key does not match stored address")
    p.sign pair hash

  -- The body of the loop of `signInputs`.
  unfoldable pub signature_for : Bytes → ℕ → List Signed → Address → Result SatisfiedPolicy
  unfolding make_signature
  signature_for master hash signed owner =
      make_signature master hash owner (find_first (λ entry. entry.index == owner.index) signed)
