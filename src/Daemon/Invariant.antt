-- ===== src/Daemon/Invariant.antt =====
-- Properties of the service's state under actions: `Preserves I m` says that `m` keeps `I`, and
-- `Settles m s I` that `I` holds where `m` stops from `s`, both however `m` ends.
use qday_walletd.Common.{
  String, ℕ, Bool, true, false, Option, none, some, List, ◌∷◌, ◌≡◌, refl, if◌then◌else◌,
}
use qday_walletd.Types.{Error, Result, ok, err, ChainIndex, Transaction}
use qday_walletd.Meta.Tables.{Db}
use qday_walletd.Daemon.Machine.{
  Daemon, World, Action, Partition, Effect, watch, announce, pure, fail, lift, gets, ask,
  ask_result, query, attempt, ◌>>=◌, ◌>>◌, require, check_none, statement, emit, add_addresses,
  commit, unless_fault, tick, machine,
}
use qday_walletd.Daemon.Steps.{Yields}

pub record Preserves {A : Type 0} (I : Daemon → Type 0) (m : Action A) : Type 0 where
  pub run : (s : Daemon) → I s → I (m s).1

pub record Settles {A : Type 0} (m : Action A) (s : Daemon) (I : Daemon → Type 0) : Type 0 where
  pub final : I (m s).1

-- The number of calls so far does not matter.
pub record IsTimeless (I : Daemon → Type 0) : Type 0 where
  pub at_tick : (s : Daemon) → I s → I (tick s)

-- Neither does the journal, nor what the daemon does outside but for submissions.
pub record IsAboutSubmissions (I : Daemon → Type 0) : Type 0 where
  pub with_db : (s : Daemon) (db : Db) → I s → I (record s { db = db })
  pub with_watch :
      (s : Daemon) (q : Partition) (a : ℕ) (d : String)
      → I s
      → I (record s { trace = watch q a d ∷ s.trace })
  pub with_announce :
      (s : Daemon) (i : ChainIndex) (txns : List Transaction)
      → I s
      → I (record s { trace = announce i txns ∷ s.trace })

module _ {A : Type 0} {I : Daemon → Type 0} where
  pub Preserves-pure : (a : A) → Preserves I (pure a)
  unfolding machine
  Preserves-pure a = record { run = λ s h. h }

  pub Preserves-fail : (e : Error) → Preserves I (fail {A = A} e)
  unfolding machine
  Preserves-fail e = record { run = λ s h. h }

  pub Preserves-lift : (r : Result A) → Preserves I (lift r)
  unfolding machine
  Preserves-lift r = record { run = λ s h. h }

  pub Preserves-gets : (f : Daemon → A) → Preserves I (gets f)
  unfolding machine
  Preserves-gets f = record { run = λ s h. h }

  pub Preserves-ask : IsTimeless I → (f : ℕ → A) → Preserves I (ask f)
  unfolding machine
  Preserves-ask i f = record { run = λ s h. i.at_tick s h }

  pub Preserves-ask_result : IsTimeless I → (f : ℕ → Result A) → Preserves I (ask_result f)
  unfolding machine
  Preserves-ask_result i f = record { run = λ s h. i.at_tick s h }

  pub Preserves-query : IsTimeless I → (w : World) (f : Db → Result A) → Preserves I (query w f)
  unfolding machine
  Preserves-query i w f = record { run = λ s h. i.at_tick s h }

  pub Preserves-attempt : (m : Action A) → Preserves I m → Preserves I (attempt m)
  unfolding machine
  Preserves-attempt m k = record { run = λ s h. k.run s h }

  pub Preserves-if :
      (b : Bool) (m n : Action A) → Preserves I m → Preserves I n → Preserves I (if b then m else n)
  Preserves-if true m n km kn = km
  Preserves-if false m n km kn = kn

  pub Settles-attempt : {m : Action A} {s : Daemon} → Settles m s I → Settles (attempt m) s I
  unfolding machine
  Settles-attempt k = record { final = k.final }

  pub Settles-preserves : {m : Action A} {s : Daemon} → Preserves I m → I s → Settles m s I
  Settles-preserves k h = record { final = k.run _ h }

module _ {A B : Type 0} {I : Daemon → Type 0} where
  pub Preserves-bind :
      (m : Action A) (f : A → Action B)
      → Preserves I m
      → ((a : A) → Preserves I (f a))
      → Preserves I (m >>= f)
  unfolding machine
  Preserves-bind m f km kf = record { run = λ s h. after (m s).0 (m s).1 (km.run s h) }
    where
      after : (r : Result A) (t : Daemon) → I t → I (◌>>=◌ (λ _. (r, t)) f t).1
      after (ok a) t h = (kf a).run t h
      after (err e) t h = h

  pub Preserves-then :
      (m : Action A) (k : Action B) → Preserves I m → Preserves I k → Preserves I (m >> k)
  unfolding ◌>>◌
  Preserves-then m k km kk = Preserves-bind m (λ _. k) km (λ _. kk)

  pub Settles-bind :
      {m : Action A} {f : A → Action B} {s : Daemon}
      → Settles m s I
      → Yields m s (λ a t. Settles (f a) t I)
      → Settles (m >>= f) s I
  unfolding machine
  Settles-bind {m} {f} {s} stop go = record { final = from (m s).0 (m s).1 refl stop.final }
    where
      from : (r : Result A) (t : Daemon) → m s ≡ (r, t) → I t → I (◌>>=◌ (λ _. (r, t)) f s).1
      from (ok a) t ran h = (go.at a t ran).final
      from (err e) t ran h = h

  -- A rest that preserves.
  pub Settles-go :
      {m : Action A} {f : A → Action B} {s : Daemon}
      → Settles m s I
      → ((a : A) → Preserves I (f a))
      → Settles (m >>= f) s I
  unfolding machine
  Settles-go {m} {f} {s} stop k = record { final = from (m s).0 (m s).1 stop.final }
    where
      from : (r : Result A) (t : Daemon) → I t → I (◌>>=◌ (λ _. (r, t)) f s).1
      from (ok a) t h = (k a).run t h
      from (err e) t h = h

  -- What is preserved up to here, and what follows from here.
  pub Settles-after :
      {m : Action A} {f : A → Action B} {s : Daemon}
      → Preserves I m
      → I s
      → ((a : A) (t : Daemon) → I t → Settles (f a) t I)
      → Settles (m >>= f) s I
  unfolding machine
  Settles-after {m} {f} {s} k h go = record { final = from (m s).0 (m s).1 (k.run s h) }
    where
      from : (r : Result A) (t : Daemon) → I t → I (◌>>=◌ (λ _. (r, t)) f s).1
      from (ok a) t h = (go a t h).final
      from (err e) t h = h

  pub Settles-after_then :
      {m : Action A} {k : Action B} {s : Daemon}
      → Preserves I m
      → I s
      → ((t : Daemon) → I t → Settles k t I)
      → Settles (m >> k) s I
  unfolding ◌>>◌
  Settles-after_then k h go = Settles-after k h (λ a t h'. go t h')

  pub Settles-then :
      {m : Action A} {k : Action B} {s : Daemon}
      → Settles m s I
      → Yields m s (λ a t. Settles k t I)
      → Settles (m >> k) s I
  unfolding ◌>>◌
  Settles-then stop go = Settles-bind stop go

module _ {I : Daemon → Type 0} where
  pub Preserves-require : (b : Bool) (e : Error) → Preserves I (require b e)
  unfolding machine
  Preserves-require true e = record { run = λ s h. h }
  Preserves-require false e = record { run = λ s h. h }

  pub Preserves-check_none : (o : Option Error) → Preserves I (check_none o)
  unfolding machine
  Preserves-check_none none = record { run = λ s h. h }
  Preserves-check_none (some e) = record { run = λ s h. h }

  pub Preserves-emit :
      (e : Effect)
      → ((s : Daemon) → I s → I (record s { trace = e ∷ s.trace }))
      → Preserves I (emit e)
  unfolding machine
  Preserves-emit e k = record { run = λ s h. k s h }

  pub Preserves-statement :
      IsTimeless I
      → IsAboutSubmissions I
      → (w : World) (f : Db → Result Db) → Preserves I (statement w f)
  unfolding machine
  Preserves-statement i j w f = record {
    run = λ s h. after (tick s) (unless_fault (w.db_fault s.clock) (f s.db)) (i.at_tick s h);
  }
    where
      after : (t : Daemon) (r : Result Db) → I t → I (commit r t).1
      after t (ok db) h = j.with_db t db h
      after t (err e) h = h

  pub Preserves-add_addresses :
      IsTimeless I
      → IsAboutSubmissions I
      → (w : World) (partition : Partition) (address : ℕ) (description : String)
      → Preserves I (add_addresses w partition address description)
  unfolding add_addresses
  Preserves-add_addresses i j w partition address description =
      Preserves-then _ _ (Preserves-emit _ (λ s h. j.with_watch s partition address description h))
        (Preserves-bind _ _ (Preserves-ask i _) (λ o. Preserves-check_none o))

pub ruleset preserves_rules = (
  Preserves-pure, Preserves-fail, Preserves-lift, Preserves-gets, Preserves-ask,
  Preserves-ask_result, Preserves-query, Preserves-attempt, Preserves-if, Preserves-bind,
  Preserves-then, Preserves-require, Preserves-check_none, Preserves-statement,
  Preserves-add_addresses,
)
