-- ===== src/Daemon/Steps.antt =====
-- Successful runs, followed step by step: `Yields m s Q` says that whatever `m` returns from `s`, `Q`
-- holds of it and of the state that it leaves. One rule for each way to build an action.
use qday_walletd.Common.{
  if◌then◌else◌, ℕ, String, ◌≡◌, refl, Bool, true, false, Option, none, some, ◌∷◌, arith,
}
use qday_walletd.Types.{Error, Result, ok, err}
use qday_walletd.Meta.Tables.{Db}
use qday_walletd.Daemon.Machine.{
  attempt, Daemon, World, Action, Partition, Effect, watch, pure, fail, lift, gets, ask, ask_result,
  query, ◌>>=◌, ◌>>◌, require, check_none, statement, emit, add_addresses, commit, unless_fault,
  tick, machine,
}

module _ {A B : Type 0} where
  bind-inv :
      (m : Action A) (f : A → Action B) (s : Daemon) {b : B} {s'' : Daemon}
      → (m >>= f) s ≡ (ok b, s'')
      → (a : A) × (s' : Daemon) × (m s ≡ (ok a, s')) × (f a s' ≡ (ok b, s''))
  unfolding machine
  bind-inv m f s {b} {s''} e = from (m s).0 (m s).1 refl e
    where
      from :
          (r : Result A) (s' : Daemon)
          → m s ≡ (r, s')
          → ◌>>=◌ (λ _. (r, s')) f s ≡ (ok b, s'')
          → (a : A) × (t : Daemon) × (m s ≡ (ok a, t)) × (f a t ≡ (ok b, s''))
      from (ok a) s' ran rest = (a, s', ran, rest)
      from (err x) s' ran rest = absurd (ground arith)

-- If `m` succeeds from `s`, its result and the state after it satisfy `Q`.
pub record Yields {A : Type 0} (m : Action A) (s : Daemon) (Q : A → Daemon → Type 0) : Type 0 where
  pub at : (a : A) (s' : Daemon) → m s ≡ (ok a, s') → Q a s'

-- A run to an equation between results is followed by rewriting along it.
landed :
    {A : Type 0} (Q : A → Daemon → Type 0) {a b : A} {s t : Daemon}
    → ◌≡◌ {A = Result A × Daemon} (ok a, s) (ok b, t)
    → Q a s
    → Q b t
landed {A} Q {a} {b} {s} {t} e q =
    let first : a ≡ b = ground arith in
    let second : s ≡ t = ground arith in rw (← first, ← second) q

-- Nothing need be known of a run.
pub Yields-any : {A : Type 0} (m : Action A) {s : Daemon} → Yields m s (λ _ _. Unit)
Yields-any m = record { at = λ a s' e. tt }

module _ {A B : Type 0} {Q : B → Daemon → Type 0} where
  pub Yields-bind :
      {m : Action A} {f : A → Action B} {s : Daemon}
      → Yields m s (λ a s'. Yields (f a) s' Q)
      → Yields (m >>= f) s Q
  Yields-bind {m} {f} {s} y = record {
    at = λ b s'' e. let (a, s', first, rest) = bind-inv m f s e in (y.at a s' first).at b s'' rest;
  }

  pub Yields-then :
      {m : Action A} {k : Action B} {s : Daemon}
      → Yields m s (λ a s'. Yields k s' Q)
      → Yields (m >> k) s Q
  unfolding ◌>>◌
  Yields-then y = Yields-bind y

module _ {A : Type 0} {Q : A → Daemon → Type 0} where
  -- What holds of every result is weakened.
  pub Yields-map :
      {P : A → Daemon → Type 0} {m : Action A} {s : Daemon}
      → Yields m s P
      → ((a : A) (s' : Daemon) → P a s' → Q a s')
      → Yields m s Q
  Yields-map y f = record { at = λ a s' e. f a s' (y.at a s' e) }

  pub Yields-pure : (a : A) {s : Daemon} → Q a s → Yields (pure a) s Q
  unfolding machine
  Yields-pure a q = record { at = λ b s' e. landed Q e q }

  pub Yields-if :
      (b : Bool) {m n : Action A} {s : Daemon}
      → (b ≡ true → Yields m s Q)
      → (b ≡ false → Yields n s Q)
      → Yields (if b then m else n) s Q
  Yields-if true {m} {n} {s} y z = y refl
  Yields-if false {m} {n} {s} y z = z refl

  pub Yields-fail : (x : Error) {s : Daemon} → Yields (fail x) s Q
  unfolding machine
  Yields-fail x = record { at = λ b s' e. absurd (ground arith) }

  pub Yields-lift : (r : Result A) {s : Daemon} → ((a : A) → r ≡ ok a → Q a s) → Yields (lift r) s Q
  unfolding machine
  Yields-lift r {s} q = record {
    at = λ b s' e.
        let first : r ≡ ok b = ground arith in
        let second : s ≡ s' = ground arith in rw (← second) (q b first);
  }

  pub Yields-gets : (f : Daemon → A) {s : Daemon} → Q (f s) s → Yields (gets f) s Q
  unfolding machine
  Yields-gets f q = record { at = λ b s' e. landed Q e q }

  pub Yields-ask : (f : ℕ → A) {s : Daemon} → Q (f s.clock) (tick s) → Yields (ask f) s Q
  unfolding machine
  Yields-ask f q = record { at = λ b s' e. landed Q e q }

  pub Yields-ask_result :
      (f : ℕ → Result A) {s : Daemon}
      → ((a : A) → f s.clock ≡ ok a → Q a (tick s))
      → Yields (ask_result f) s Q
  unfolding machine
  Yields-ask_result f {s} q = record {
    at = λ b s' e.
        let first : f s.clock ≡ ok b = ground arith in
        let second : tick s ≡ s' = ground arith in rw (← second) (q b first);
  }

  pub Yields-query :
      (w : World) (f : Db → Result A) {s : Daemon}
      → ((a : A) → f s.db ≡ ok a → Q a (tick s))
      → Yields (query w f) s Q
  unfolding machine
  Yields-query w f {s} q = record {
    at = λ b s' e.
        let first : f s.db ≡ ok b = ground arith in
        let second : tick s ≡ s' = ground arith in rw (← second) (q b first);
  }

module _ {Q : Unit {0} → Daemon → Type 0} where
  pub Yields-require :
      (b : Bool) (x : Error) {s : Daemon} → (b ≡ true → Q tt s) → Yields (require b x) s Q
  unfolding machine
  Yields-require true x q = record { at = λ u s' e. landed Q e (q refl) }
  Yields-require false x q = record { at = λ u s' e. absurd (ground arith) }

  pub Yields-check_none :
      (o : Option Error) {s : Daemon} → (o ≡ none → Q tt s) → Yields (check_none o) s Q
  unfolding machine
  Yields-check_none none q = record { at = λ u s' e. landed Q e (q refl) }
  Yields-check_none (some x) q = record { at = λ u s' e. absurd (ground arith) }

  pub Yields-emit :
      (x : Effect) {s : Daemon} → Q tt (record s { trace = x ∷ s.trace }) → Yields (emit x) s Q
  unfolding machine
  Yields-emit x q = record { at = λ u s' e. landed Q e q }

  pub Yields-statement :
      (w : World) (f : Db → Result Db) {s : Daemon}
      → ((db : Db) → f s.db ≡ ok db → Q tt (record (tick s) { db = db }))
      → Yields (statement w f) s Q
  unfolding machine
  Yields-statement w f {s} q = record { at = λ u s' e. from (w.db_fault s.clock) (f s.db) refl e }
    where
      from :
          {u : Unit {0}} {s' : Daemon} (fault : Option Error) (r : Result Db)
          → f s.db ≡ r
          → commit (unless_fault fault r) (tick s) ≡ (ok u, s')
          → Q u s'
      from none (ok db) done e = landed Q e (q db done)
      from none (err x) done e = absurd (ground arith)
      from (some x) r done e = absurd (ground arith)

pub Yields-add_addresses :
    (w : World) (partition : Partition) (address : ℕ) (description : String) {s : Daemon}
    {Q : Unit {0} → Daemon → Type 0}
    → Q tt (record (tick s) { trace = watch partition address description ∷ s.trace })
    → Yields (add_addresses w partition address description) s Q
unfolding add_addresses
Yields-add_addresses w partition address description q =
    Yields-then (Yields-emit _ (Yields-bind (Yields-ask _ (Yields-check_none _ λ fine. q))))

-- An attempt goes on whether or not it succeeded.
pub Yields-attempt :
    {A : Type 0} {Q : Result A → Daemon → Type 0} (m : Action A) {s : Daemon}
    → ((r : Result A) (t : Daemon) → m s ≡ (r, t) → Q r t)
    → Yields (attempt m) s Q
unfolding attempt
Yields-attempt {A} {Q} m {s} q = record { at = λ r t e. landed Q e (q (m s).0 (m s).1 refl) }
