-- ===== src/Daemon/Preserves.antt =====
-- Invariants of the journal under actions: one rule for each way in which the service builds one.
use qday_walletd.Common.{
  ℕ, String, ◌≡◌, refl, Bool, true, false, Option, none, some, List, if◌then◌else◌,
}
use qday_walletd.Types.{Error, Result, ok, err, ChainIndex, Transaction}
use qday_walletd.Meta.Tables.{Db}
use qday_walletd.Daemon.Machine.{
  Daemon, World, Action, Partition, Effect, pure, fail, lift, gets, ask, ask_result, query, attempt,
  ◌>>=◌, ◌>>◌, require, check_none, statement, commit, unless_fault, tick, emit, add_addresses,
  add_pool, machine,
}

-- An action leaves `Q` true of the journal, however it ends.
pub record Keeps {A : Type 0} (Q : Db → Type 0) (m : Action A) : Type 0 where
  pub run : (s : Daemon) → Q s.db → Q (m s).1.db

module _ {A : Type 0} {Q : Db → Type 0} where
  pub Keeps-pure : (a : A) → Keeps Q (pure a)
  unfolding machine
  Keeps-pure a = record { run = λ s h. h }

  pub Keeps-fail : (e : Error) → Keeps Q (fail {A = A} e)
  unfolding machine
  Keeps-fail e = record { run = λ s h. h }

  pub Keeps-lift : (r : Result A) → Keeps Q (lift r)
  unfolding machine
  Keeps-lift r = record { run = λ s h. h }

  pub Keeps-gets : (f : Daemon → A) → Keeps Q (gets f)
  unfolding machine
  Keeps-gets f = record { run = λ s h. h }

  pub Keeps-ask : (f : ℕ → A) → Keeps Q (ask f)
  unfolding machine
  Keeps-ask f = record { run = λ s h. h }

  pub Keeps-ask_result : (f : ℕ → Result A) → Keeps Q (ask_result f)
  unfolding machine
  Keeps-ask_result f = record { run = λ s h. h }

  pub Keeps-query : (w : World) (f : Db → Result A) → Keeps Q (query w f)
  unfolding machine
  Keeps-query w f = record { run = λ s h. h }

  pub Keeps-attempt : (m : Action A) → Keeps Q m → Keeps Q (attempt m)
  unfolding machine
  Keeps-attempt m k = record { run = λ s h. k.run s h }

  pub Keeps-if : (b : Bool) (m n : Action A) → Keeps Q m → Keeps Q n → Keeps Q (if b then m else n)
  Keeps-if true m n km kn = km
  Keeps-if false m n km kn = kn

module _ {A B : Type 0} {Q : Db → Type 0} where
  pub Keeps-bind :
      (m : Action A) (f : A → Action B) → Keeps Q m → ((a : A) → Keeps Q (f a)) → Keeps Q (m >>= f)
  unfolding machine
  Keeps-bind m f km kf = record { run = λ s h. after (m s).0 (m s).1 (km.run s h) }
    where
      after : (r : Result A) (s' : Daemon) → Q s'.db → Q (◌>>=◌ (λ _. (r, s')) f s').1.db
      after (ok a) s' h = (kf a).run s' h
      after (err e) s' h = h

  pub Keeps-then : (m : Action A) (k : Action B) → Keeps Q m → Keeps Q k → Keeps Q (m >> k)
  unfolding ◌>>◌
  Keeps-then m k km kk = Keeps-bind m (λ _. k) km (λ _. kk)

module _ {Q : Db → Type 0} where
  pub Keeps-require : (b : Bool) (e : Error) → Keeps Q (require b e)
  unfolding machine
  Keeps-require true e = record { run = λ s h. h }
  Keeps-require false e = record { run = λ s h. h }

  pub Keeps-check_none : (o : Option Error) → Keeps Q (check_none o)
  unfolding machine
  Keeps-check_none none = record { run = λ s h. h }
  Keeps-check_none (some e) = record { run = λ s h. h }

  pub Keeps-emit : (e : Effect) → Keeps Q (emit e)
  unfolding machine
  Keeps-emit e = record { run = λ s h. h }

  -- A statement that keeps `Q` whenever it succeeds.
  pub Keeps-statement :
      (w : World) (f : Db → Result Db)
      → ((db db' : Db) → Q db → f db ≡ ok db' → Q db')
      → Keeps Q (statement w f)
  unfolding machine
  Keeps-statement w f k = record { run = λ s h. after s (w.db_fault s.clock) (f s.db) refl h }
    where
      after :
          (s : Daemon) (fault : Option Error) (r : Result Db)
          → f s.db ≡ r
          → Q s.db
          → Q (commit (unless_fault fault r) (tick s)).1.db
      after s none (ok db) done h = k s.db db h done
      after s none (err e) done h = h
      after s (some e) r done h = h

  pub Keeps-add_addresses :
      (w : World) (partition : Partition) (address : ℕ) (description : String)
      → Keeps Q (add_addresses w partition address description)
  unfolding add_addresses
  Keeps-add_addresses w partition address description =
      search (Keeps-then, Keeps-bind, Keeps-emit, Keeps-ask, Keeps-check_none)

  pub Keeps-add_pool :
      (w : World) (basis : ChainIndex) (txns : List Transaction) → Keeps Q (add_pool w basis txns)
  unfolding add_pool
  Keeps-add_pool w basis txns =
      search (Keeps-then, Keeps-bind, Keeps-gets, Keeps-emit, Keeps-ask, Keeps-check_none)

pub ruleset keeps_rules = (
  Keeps-pure, Keeps-fail, Keeps-lift, Keeps-gets, Keeps-ask, Keeps-ask_result, Keeps-query,
  Keeps-attempt, Keeps-if, Keeps-bind, Keeps-then, Keeps-require, Keeps-check_none, Keeps-emit,
  Keeps-add_addresses, Keeps-add_pool,
)
