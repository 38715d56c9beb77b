-- ===== src/Daemon/Ends.antt =====
-- Runs followed step by step to their end, whether they succeed or fail.
use qday_walletd.Common.{arith, ap, Option, none, some, ◌≡◌, refl}
use qday_walletd.Types.{Error, Result, ok, err}
use qday_walletd.Meta.Tables.{Db}
use qday_walletd.Daemon.Machine.{
  Daemon, World, statement, commit, unless_fault, tick, Action, attempt, ◌>>=◌, ◌>>◌, machine,
}
use qday_walletd.Daemon.Preserves.{Keeps}
use qday_walletd.Daemon.Steps.{Yields}

-- The journal after `m` satisfies `Q`, however `m` ended.
pub record Ends {A : Type 0} (m : Action A) (s : Daemon) (Q : Db → Type 0) : Type 0 where
  pub final : Q (m s).1.db

module _ {A : Type 0} {Q : Db → Type 0} where
  pub Ends-keeps : {m : Action A} {s : Daemon} → Keeps Q m → Q s.db → Ends m s Q
  Ends-keeps k h = record { final = k.run _ h }

module _ {A B : Type 0} {Q : Db → Type 0} where
  pub Ends-bind :
      {m : Action A} {f : A → Action B} {s : Daemon}
      → Ends m s Q
      → Yields m s (λ a s'. Ends (f a) s' Q)
      → Ends (m >>= f) s Q
  unfolding machine
  Ends-bind {m} {f} {s} stop go = record { final = from (m s).0 (m s).1 refl stop.final }
    where
      from :
          (r : Result A) (s' : Daemon) → m s ≡ (r, s') → Q s'.db → Q (◌>>=◌ (λ _. (r, s')) f s).1.db
      from (ok a) s' ran q = (go.at a s' ran).final
      from (err e) s' ran q = q

  pub Ends-then :
      {m : Action A} {k : Action B} {s : Daemon}
      → Ends m s Q
      → Yields m s (λ a s'. Ends k s' Q)
      → Ends (m >> k) s Q
  unfolding ◌>>◌
  Ends-then stop go = Ends-bind stop go

pub Ends-statement :
    {Q : Db → Type 0} (w : World) (f : Db → Result Db) {s : Daemon}
    → Q s.db
    → ((db : Db) → f s.db ≡ ok db → Q db)
    → Ends (statement w f) s Q
unfolding machine
Ends-statement {Q} w f {s} h k = record { final = from (w.db_fault s.clock) (f s.db) refl }
  where
    from :
        (fault : Option Error) (r : Result Db)
        → f s.db ≡ r
        → Q (commit (unless_fault fault r) (tick s)).1.db
    from none (ok db) done = k db done
    from none (err e) done = h
    from (some e) r done = h

-- What is kept holds after a success.
pub Yields-keeps :
    {A : Type 0} {Q : Db → Type 0} {m : Action A} {s : Daemon}
    → Keeps Q m
    → Q s.db
    → Yields m s (λ _ t. Q t.db)
Yields-keeps {A} {Q} {m} {s} k h = record {
  at = λ a t e. rw (← ap (λ (r : Result A × Daemon). r.1.db) e) (k.run s h);
}

-- A statement whose error is looked at: it took effect, or it changed nothing.
pub Yields-attempt_statement :
    {Q : Result (Unit {0}) → Daemon → Type 0} (w : World) (f : Db → Result Db) {s : Daemon}
    → ((db : Db) → f s.db ≡ ok db → Q (ok tt) (record (tick s) { db = db }))
    → ((e : Error) → Q (err e) (tick s))
    → Yields (attempt (statement w f)) s Q
unfolding machine
Yields-attempt_statement {Q} w f {s} fine bad = record {
  at = λ r s' e. from (w.db_fault s.clock) (f s.db) refl e;
}
  where
    from :
        {r : Result (Unit {0})} {s' : Daemon} (fault : Option Error) (done : Result Db)
        → f s.db ≡ done
        → attempt (λ t. commit (unless_fault fault done) (tick s)) s ≡ (ok r, s')
        → Q r s'
    from {r} {s'} none (ok db) done e =
        let first : ok tt ≡ r = ground arith in
        let second : record (tick s) { db = db } ≡ s' = ground arith in
        rw (← first, ← second) (fine db done)
    from {r} {s'} none (err x) done e =
        let first : err x ≡ r = ground arith in
        let second : tick s ≡ s' = ground arith in rw (← first, ← second) (bad x)
    from {r} {s'} (some x) y done e =
        let first : err x ≡ r = ground arith in
        let second : tick s ≡ s' = ground arith in rw (← first, ← second) (bad x)
