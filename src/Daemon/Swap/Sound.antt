-- ===== src/Daemon/Swap/Sound.antt =====
-- Every list of events leads to sound observations.
use qday_walletd.Common.{
  ℕ, suc, ◌≡◌, ◌⊎◌, inl, inr, refl, Bool, true, false, not, ◌&&◌, ◌||◌, Option, none, some, List,
  [], ◌∷◌, All, All-Elem, Elem-find_first, arith, ◌==◌, Bool-cases,
}
use qday_walletd.Types.{Platform, Transaction, SiacoinInput, SiacoinOutput}
use qday_walletd.Meta.Swaps.{Swap, swap_contract}
use qday_walletd.Daemon.Machine.{Event, EventData, transaction_data, payout_data, other_data}
use qday_walletd.Daemon.Swap.Observe.{
  Observed, has_id, lookup, put, is_news, funding, observe_output, observe_outputs, known_or_bare,
  spending, observe_input, observe_inputs, observe_content, observe_swap_transaction, replay_back,
  replay,
}
use qday_walletd.Daemon.Swap.Revealed.{IsSound, classify_swap_spend-Opens}

All-put :
    (P : Observed → Type 0) (o : Observed) (m : List Observed) → P o → All P m → All P (put o m)
All-put P o [] h k = (h, tt)
All-put P o (x ∷ m) h k = elim (Bool-cases (has_id o.view.id x)) [
  | inl same ↦ rw same (h, k.1)
  | inr different ↦ rw different (k.0, All-put P o m h k.1)
]

module _ (p : Platform) (s : Swap) (event : Event) (confirmed : Bool) (txn : Transaction) where
  funding-IsSound :
      (i : ℕ) (output : SiacoinOutput) → IsSound p s (funding p s event confirmed txn i output)
  funding-IsSound i output = by_stage confirmed
    where
      by_stage : (b : Bool) → IsSound p s (funding p s event b txn i output)
      by_stage true = inl (refl, refl, refl, refl)
      by_stage false = inl (refl, refl, refl, refl)

  observe_output-AllSound :
      (i : ℕ) (output : SiacoinOutput) (m : List Observed)
      → All (IsSound p s) m
      → All (IsSound p s) (observe_output p s event confirmed txn i output m)
  unfolding observe_output
  observe_output-AllSound i output m h =
      elim (Bool-cases (
        output.address == s.address
        && is_news confirmed (lookup (funding p s event confirmed txn i output).view.id m))) [
          | inl news ↦ rw news (All-put _ _ m (funding-IsSound i output) h)
          | inr known ↦ rw known h
        ]

  observe_outputs-AllSound :
      (i : ℕ) (outputs : List SiacoinOutput) (m : List Observed)
      → All (IsSound p s) m
      → All (IsSound p s) (observe_outputs p s event confirmed txn i outputs m)
  unfolding observe_outputs
  observe_outputs-AllSound i [] m h = h
  observe_outputs-AllSound i (output ∷ outputs) m h =
      observe_outputs-AllSound (suc i) outputs _ (observe_output-AllSound i output m h)

  -- What is looked up is sound, or new: open, and with no spend.
  known_or_bare-stage :
      (input : SiacoinInput) (found : Option Observed) (m : List Observed)
      → All (IsSound p s) m
      → lookup (p.id_string input.parent.id) m ≡ found
      → ((known_or_bare p s event confirmed txn input found).spent ≡ true)
        ⊎ ((known_or_bare p s event confirmed txn input found).view.spend_height ≡ none)
  known_or_bare-stage input none m h e = inr refl
  known_or_bare-stage input (some o) m h e =
      elim (All-Elem (IsSound p s) m o h (Elem-find_first _ m o e)) [
        | inl opened ↦ inr opened.2
        | inr spent ↦ inl spent.0
      ]

  spending-IsSound :
      (input : SiacoinInput) (o : Observed)
      → (o.spent && not confirmed) ≡ false
      → (o.spent ≡ true) ⊎ (o.view.spend_height ≡ none)
      → IsSound p s (spending p s event confirmed txn input o)
  spending-IsSound input o free stage = by_stage confirmed free
    where
      by_stage :
          (b : Bool) → (o.spent && not b) ≡ false → IsSound p s (spending p s event b txn input o)
      by_stage true free =
          inr (refl, (_, refl, classify_swap_spend-Opens p (swap_contract s) input))
      by_stage false free =
          let unspent : o.view.spend_height ≡ none = elim stage [
            | inl spent ↦ absurd (ground arith)
            | inr no_height ↦ no_height
          ] in
          inr (refl, (_, rw unspent refl, classify_swap_spend-Opens p (swap_contract s) input))

  observe_input-AllSound :
      (input : SiacoinInput) (m : List Observed)
      → All (IsSound p s) m
      → All (IsSound p s) (observe_input p s event confirmed txn input m)
  unfolding observe_input
  observe_input-AllSound input m h =
      let o =
        known_or_bare p s event confirmed txn input (lookup (p.id_string input.parent.id) m) in
      elim (Bool-cases
        (not (input.parent.output.address == s.address) || o.spent && not confirmed)) [
          | inl passed ↦ rw passed h
          | inr taken ↦ rw taken (
              All-put _ _ m
                (spending-IsSound input o (ground arith) (known_or_bare-stage input _ m h refl)) h)
        ]

  observe_inputs-AllSound :
      (inputs : List SiacoinInput) (m : List Observed)
      → All (IsSound p s) m
      → All (IsSound p s) (observe_inputs p s event confirmed txn inputs m)
  unfolding observe_inputs
  observe_inputs-AllSound [] m h = h
  observe_inputs-AllSound (input ∷ inputs) m h =
      observe_inputs-AllSound inputs _ (observe_input-AllSound input m h)

module _ (p : Platform) (s : Swap) (confirmed : Bool) where
  observe-AllSound :
      (event : Event) (content : EventData) (m : List Observed)
      → All (IsSound p s) m
      → All (IsSound p s) (observe_content p s confirmed event content m)
  unfolding observe_content
  observe-AllSound event (transaction_data txn) m h =
      observe_inputs-AllSound p s event confirmed txn txn.inputs _
        (observe_outputs-AllSound p s event confirmed txn 0 txn.outputs m h)
  observe-AllSound event (payout_data e) m h = h
  observe-AllSound event other_data m h = h

  replay_back-AllSound :
      (events : List Event) (m : List Observed)
      → All (IsSound p s) m
      → All (IsSound p s) (replay_back p s confirmed events m)
  unfolding replay_back observe_swap_transaction
  replay_back-AllSound [] m h = h
  replay_back-AllSound (event ∷ events) m h =
      observe-AllSound event event.content _ (replay_back-AllSound events m h)

  replay-AllSound :
      (events : List Event) (m : List Observed)
      → All (IsSound p s) m
      → All (IsSound p s) (replay p s confirmed events m)
  unfolding replay observe_swap_transaction
  replay-AllSound [] m h = h
  replay-AllSound (event ∷ events) m h =
      replay-AllSound events _ (observe-AllSound event event.content m h)

-- After any confirmed and any unconfirmed events, every observed output is either open, funded just if
-- that is confirmed, with neither a spend nor a secret, or spent by a transaction of one kind, finally
-- just if that is in a block; a secret is shown only for a claim, and it opens the hash lock.
pub observed-AllSound :
    (p : Platform) (s : Swap) (confirmed unconfirmed : List Event)
    → All (IsSound p s) (replay p s false unconfirmed (replay_back p s true confirmed []))
observed-AllSound p s confirmed unconfirmed =
    replay-AllSound p s false unconfirmed _ (replay_back-AllSound p s true confirmed [] tt)
