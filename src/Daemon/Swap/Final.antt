-- ===== src/Daemon/Swap/Final.antt =====
-- The pool does not change what was observed of a spend, and the status of a swap follows its outputs.
use qday_walletd.Common.{
  ℕ, suc, String, ◌≡◌, ◌∙◌, inl, inr, refl, Bool, true, false, not, ◌&&◌, ◌||◌, Option, none, some,
  List, [], ◌∷◌, arith, ◌==◌, str_eq, eq_iff, find_first_hit, Bool-cases,
}
use qday_walletd.Types.{Platform, Transaction, SiacoinInput, SiacoinOutput}
use qday_walletd.Meta.Swaps.{Swap}
use qday_walletd.Daemon.Machine.{Event, EventData, transaction_data, payout_data, other_data}
use qday_walletd.Daemon.Swap.Observe.{
  Observed, has_id, lookup, put, is_news, funding, observe_output, observe_outputs, known_or_bare,
  spending, observe_input, observe_inputs, observe_content, observe_swap_transaction, replay,
}

lookup-put_other :
    (o : Observed) (m : List Observed) (id : String)
    → str_eq o.view.id id ≡ false
    → lookup id (put o m) ≡ lookup id m
lookup-put_other o [] id other = rw other refl
lookup-put_other o (x ∷ m) id other = elim (Bool-cases (has_id o.view.id x)) [
  | inl same ↦
      let named : x.view.id ≡ o.view.id = (eq_iff x.view.id o.view.id).0 same in
      let skipped : str_eq x.view.id id ≡ false = rw named other in rw (same, skipped, other) refl
  | inr different ↦ elim (Bool-cases (has_id id x)) [
    | inl hit ↦ rw (different, hit) refl
    | inr miss ↦ rw (different, miss) (lookup-put_other o m id other)
  ]
]

module _ (p : Platform) (s : Swap) (event : Event) (txn : Transaction) (id : String)
    (o : Observed) where
  -- The map shows the spent output, as it is.
  abbrev Shows : List Observed → Type 0
  Shows m = lookup id m ≡ some o

  observe_output-Shows :
      (i : ℕ) (output : SiacoinOutput) (m : List Observed)
      → Shows m
      → Shows (observe_output p s event false txn i output m)
  unfolding observe_output
  observe_output-Shows i output m h =
      let f = funding p s event false txn i output in
      elim (Bool-cases (output.address == s.address && is_news false (lookup f.view.id m))) [
        | inr known ↦ rw known h
        | inl news ↦ elim (Bool-cases (str_eq f.view.id id)) [
          | inr other ↦ rw news (lookup-put_other f m id other ∙ h)
          | inl same ↦
              let named : f.view.id ≡ id = (eq_iff f.view.id id).0 same in
              let found : lookup f.view.id m ≡ some o = rw named h in
              absurd (not_news (output.address == s.address) (lookup f.view.id m) found news)
        ]
      ]
    where
      not_news :
          (b : Bool) (found : Option Observed)
          → found ≡ some o
          → (b && is_news false found) ≡ true
          → ⊥
      not_news b (some x) e h = ground arith
      not_news b none e h = ground arith

  observe_outputs-Shows :
      (i : ℕ) (outputs : List SiacoinOutput) (m : List Observed)
      → Shows m
      → Shows (observe_outputs p s event false txn i outputs m)
  unfolding observe_outputs
  observe_outputs-Shows i [] m h = h
  observe_outputs-Shows i (output ∷ outputs) m h =
      observe_outputs-Shows (suc i) outputs _ (observe_output-Shows i output m h)

  -- An entry that is looked up, or made up, has the identifier that was asked for.
  known_or_bare-id :
      (input : SiacoinInput) (m : List Observed) (found : Option Observed)
      → lookup (p.id_string input.parent.id) m ≡ found
      → (known_or_bare p s event false txn input found).view.id ≡ p.id_string input.parent.id
  known_or_bare-id input m none e = refl
  known_or_bare-id input m (some x) e =
      (eq_iff x.view.id _).0 (find_first_hit (has_id (p.id_string input.parent.id)) m x e)

  observe_input-Shows :
      o.spent ≡ true
      → (input : SiacoinInput) (m : List Observed) → Shows m
      → Shows (observe_input p s event false txn input m)
  unfolding observe_input
  observe_input-Shows spent input m h =
      let name = p.id_string input.parent.id in
      let entry = known_or_bare p s event false txn input (lookup name m) in
      elim (Bool-cases
        (not (input.parent.output.address == s.address) || entry.spent && not false)) [
          | inl passed ↦ rw passed h
          | inr taken ↦ elim (Bool-cases (str_eq name id)) [
            | inr other ↦
                let different : str_eq entry.view.id id ≡ false =
                  rw (known_or_bare-id input m (lookup name m) refl) other in
                rw taken
                  (lookup-put_other (spending p s event false txn input entry) m id different ∙ h)
            | inl same ↦
                let named : name ≡ id = (eq_iff name id).0 same in
                let found : lookup name m ≡ some o = rw named h in
                absurd (not_taken (lookup name m) found taken)
          ]
        ]
    where
      not_taken :
          (found : Option Observed)
          → found ≡ some o
          → (not (input.parent.output.address == s.address)
              || (known_or_bare p s event false txn input found).spent && not false)
            ≡ false
          → ⊥
      not_taken none e h = ground arith
      not_taken (some x) e h =
          let same : x ≡ o = ground arith in
          let x_spent : x.spent ≡ true = rw same spent in ground arith

  observe_inputs-Shows :
      o.spent ≡ true
      → (inputs : List SiacoinInput) (m : List Observed) → Shows m
      → Shows (observe_inputs p s event false txn inputs m)
  unfolding observe_inputs
  observe_inputs-Shows spent [] m h = h
  observe_inputs-Shows spent (input ∷ inputs) m h =
      observe_inputs-Shows spent inputs _ (observe_input-Shows spent input m h)

-- What was observed of an output that is spent, its spend, secret, height and status, stays as it is,
-- whatever unconfirmed events follow.
pub replay-lookup :
    (p : Platform) (s : Swap) (events : List Event) (m : List Observed) (id : String) (o : Observed)
    → lookup id m ≡ some o
    → o.spent ≡ true
    → lookup id (replay p s false events m) ≡ some o
unfolding replay observe_swap_transaction observe_content
replay-lookup p s [] m id o h spent = h
replay-lookup p s (event ∷ events) m id o h spent =
    replay-lookup p s events _ id o (after event.content) spent
  where
    after : (content : EventData) → lookup id (observe_content p s false event content m) ≡ some o
    after (transaction_data txn) =
        observe_inputs-Shows p s event txn id o spent txn.inputs _
          (observe_outputs-Shows p s event txn id o 0 txn.outputs m h)
    after (payout_data e) = h
    after other_data = h
