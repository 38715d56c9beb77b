-- ===== src/Daemon/Deposits/Meaning.antt =====
-- internal/daemon/service.go, `depositEvents`: what deposits an event means, as a function of the
-- journal alone.
use qday_walletd.Common.{
  ℕ, suc, ◌≡◌, Bool, true, false, not, some, List, [], ◌∷◌, ◌++◌, arith, if◌then◌else◌, ap, sym,
  inl, inr, append_assoc, append-nil, none,
}
use qday_walletd.Types.{
  Platform, Transaction, SiacoinInput, SiacoinOutput, ConsensusState, Result, ok, ◌>>=◌,
  Result-cases,
}
use qday_walletd.Meta.Tables.{Db}
use qday_walletd.Meta.Addresses.{address_by_hash}
use qday_walletd.Daemon.Machine.{Event, EventData, transaction_data, payout_data, other_data}
use qday_walletd.Daemon.Wallet.{is_some}
use qday_walletd.Daemon.Deposits.{Deposit, deposit_to, place_id}

module _ (p : Platform) (db : Db) where
  unfoldable pub spends_ours : List SiacoinInput → Result Bool
  spends_ours [] = ok false
  spends_ours (input ∷ inputs) = do
    owner ← address_by_hash p input.parent.output.address db
    let more = spends_ours inputs
    if is_some owner then ok true else more

module _ (p : Platform) (db : Db) (cs : ConsensusState) where
  unfoldable pub paid_to_ours :
      Event → Transaction → Bool → ℕ → List SiacoinOutput → Result (List Deposit)
  paid_to_ours event txn internal i [] = ok []
  paid_to_ours event txn internal i (output ∷ outputs) = do
    owner ← address_by_hash p output.address db
    rest ← paid_to_ours event txn internal (suc i) outputs
    ok (
        deposit_to p cs event (place_id p cs event txn i) (p.id_string (p.transaction_id txn))
          (some i) owner output.value (not internal)
        ++ rest)

  unfoldable pub content_meaning : Event → EventData → Result (List Deposit)
  unfolding spends_ours
  content_meaning event (transaction_data txn) = do
    internal ← spends_ours p db txn.inputs
    paid_to_ours event txn internal 0 txn.outputs
  content_meaning event (payout_data element) = do
    owner ← address_by_hash p element.output.address db
    ok (deposit_to p cs event (p.id_string event.id) "" none owner element.output.value true)
  content_meaning event other_data = ok []

  -- The deposits of a list of events, in order.
  unfoldable pub deposits_of : List Event → Result (List Deposit)
  unfolding content_meaning
  deposits_of [] = ok []
  deposits_of (event ∷ events) = do
    new ← content_meaning event event.content
    rest ← deposits_of events
    ok (new ++ rest)

  pub deposits_of-append :
      (xs ys : List Event) {us vs : List Deposit}
      → deposits_of xs ≡ ok us
      → deposits_of ys ≡ ok vs
      → deposits_of (xs ++ ys) ≡ ok (us ++ vs)
  unfolding deposits_of
  deposits_of-append [] ys {us} {vs} e f = let same : us ≡ [] = ground arith in rw same f
  deposits_of-append (x ∷ xs) ys {us} {vs} e f = elim (Result-cases (content_meaning x x.content)) [
    | inr (b, bad) ↦ absurd (ground arith)
    | inl (new, means) ↦ elim (Result-cases (deposits_of xs)) [
      | inr (b, bad) ↦ absurd (ground arith)
      | inl (rest, more) ↦
          let whole : us ≡ new ++ rest = ground arith in
          rw (means, deposits_of-append xs ys more f, whole)
            (ap ok (sym (append_assoc new rest vs)))
    ]
  ]

  pub deposits_of-one :
      (x : Event) {new : List Deposit}
      → content_meaning x x.content ≡ ok new
      → deposits_of (x ∷ []) ≡ ok new
  unfolding deposits_of
  deposits_of-one x {new} e = rw e (ap ok (append-nil new))
