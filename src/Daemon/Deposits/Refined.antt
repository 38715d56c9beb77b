-- ===== src/Daemon/Deposits/Refined.antt =====
-- `Deposits` refines the list of deposits that the history of the wallet means.
use qday_walletd.Common.{
  ℕ, zero, suc, ◌+◌, ◌-◌, ◌≤◌, ◌≡◌, refl, ◌∙◌, sym, ap, ◌⊎◌, inl, inr, true, ◌||◌, List, [], ◌∷◌,
  ◌++◌, append_assoc, append-nil, arith, length, length-take, length-drop, take, take-add,
  take-take, drop, drop-drop, ltb, leb, leb→le, ltb→lt, ltb_false→le, ◌==◌, ==_iff, Bool-cases,
}
use qday_walletd.Types.{Platform, ConsensusState, ok}
use qday_walletd.Meta.Tables.{Db}
use qday_walletd.Daemon.Machine.{World, Daemon, Event}
use qday_walletd.Daemon.Steps.{
  Yields, Yields-bind, Yields-then, Yields-map, Yields-pure, Yields-fail, Yields-ask,
  Yields-ask_result, Yields-require, Yields-if,
}
use qday_walletd.Daemon.Deposits.{Deposit, event_limit, take_events, deposit_pages, deposits}
use qday_walletd.Daemon.Deposits.Meaning.{deposits_of, deposits_of-append, deposits_of-one}
use qday_walletd.Daemon.Deposits.Lookups.{Yields-event_deposits}

-- What reading on from an offset comes to, where `rest` are the events from there: so many of them
-- were read, what they mean was added, and it stopped at the limit or at the end.
pub record IsReading (p : Platform) (db : Db) (cs : ConsensusState) (limit : ℕ) (rest : List Event)
    (found : List Deposit) (offset : ℕ) (answer : List Deposit × ℕ) : Type 0 where
  pub count : ℕ
  pub new : List Deposit
  pub advanced : answer.1 ≡ offset + count
  pub means : deposits_of p db cs (take count rest) ≡ ok new
  pub added : answer.0 ≡ found ++ new
  pub inside : count ≤ length rest
  pub stopped : (limit ≤ length answer.0) ⊎ (count ≡ length rest)

module _ (p : Platform) (w : World) (db : Db) (cs : ConsensusState) (limit : ℕ) where
  nothing_read :
      (rest : List Event) (found : List Deposit) (offset : ℕ)
      → (limit ≤ length found) ⊎ (0 ≡ length rest)
      → IsReading p db cs limit rest found offset (found, offset)
  unfolding deposits_of
  nothing_read rest found offset stop = record {
    count = 0;
    new = [];
    advanced = omega arith;
    means = refl;
    added = sym (append-nil found);
    inside = omega arith;
    stopped = stop;
  }

  -- After so many events that mean `new`, reading goes on.
  read_on :
      (m : ℕ) (new : List Deposit) (rest : List Event) (found : List Deposit) (offset : ℕ)
      {answer : List Deposit × ℕ}
      → m ≤ length rest
      → deposits_of p db cs (take m rest) ≡ ok new
      → IsReading p db cs limit (drop m rest) (found ++ new) (offset + m) answer
      → IsReading p db cs limit rest found offset answer
  read_on m new rest found offset {answer} fits means h =
      let left = length-drop m rest in
      let within = h.inside in
      let further = h.advanced in
      record {
        count = m + h.count;
        new = new ++ h.new;
        advanced = omega (arith, further);
        means =
            rw (take-add m h.count rest)
              (deposits_of-append p db cs (take m rest) (take h.count (drop m rest)) means h.means);
        added = h.added ∙ append_assoc found new h.new;
        inside = omega (arith, left, within);
        stopped = elim h.stopped [
          | inl enough ↦ inl enough
          | inr all_read ↦ inr (omega (arith, left, all_read))
        ];
      }

  Yields-take_events :
      (events : List Event) (found : List Deposit) (offset : ℕ) (s : Daemon)
      → s.db ≡ db
      → Yields
          (take_events p w cs limit events found offset)
          s
          (λ r t. IsReading p db cs limit events found offset r × (t.db ≡ db))
  unfolding take_events
  Yields-take_events [] found offset s same =
      Yields-pure _ (nothing_read [] found offset (inr refl), same)
  Yields-take_events (event ∷ events) found offset s same = Yields-bind (
      Yields-map (Yields-event_deposits p w db cs event s same) λ new t h.
        let first = deposits_of-one p db cs event h.0 in
        Yields-if (leb limit (length (found ++ new)))
          (λ enough. Yields-pure _ (
            read_on 1 new (event ∷ events) found offset (omega arith) first
                (nothing_read events (found ++ new) (offset + 1) (inl (leb→le _ _ enough))),
            h.1,
          ))
          (λ more.
            Yields-map (Yields-take_events events (found ++ new) (offset + 1) t h.1)
              λ r u k. (read_on 1 new (event ∷ events) found offset (omega arith) first k.0, k.1)))

  -- A page of the events, read to its end or to the limit.
  of_page :
      (rest : List Event) (found : List Deposit) (offset : ℕ) {answer : List Deposit × ℕ}
      → (h : IsReading p db cs limit (take (event_limit limit) rest) found offset answer)
      → (limit ≤ length answer.0) ⊎ (h.count ≡ length rest)
      → IsReading p db cs limit rest found offset answer
  of_page rest found offset {answer} h stop =
      let size = length-take (event_limit limit) rest in
      let within = h.inside in
      record {
        count = h.count;
        new = h.new;
        advanced = h.advanced;
        means =
            rw (← take-take h.count (event_limit limit) rest (omega (arith, size, within))) h.means;
        added = h.added;
        inside = omega (arith, size, within);
        stopped = stop;
      }

  -- A page that is short, or empty, holds all that is left.
  short_page :
      (rest : List Event) (n : ℕ)
      → 1 ≤ limit
      → (length (take (event_limit limit) rest) == 0
          || ltb (length (take (event_limit limit) rest)) (event_limit limit))
        ≡ true
      → n ≡ length (take (event_limit limit) rest)
      → n ≡ length rest
  short_page rest n some_limit short all_read =
      let size = length-take (event_limit limit) rest in
      elim (Bool-cases (length (take (event_limit limit) rest) == 0)) [
        | inl empty ↦
            let zero_read = (==_iff (length (take (event_limit limit) rest)) 0).0 empty in
            omega (arith, size, zero_read)
        | inr some_event ↦
            let less =
              ltb→lt (length (take (event_limit limit) rest)) (event_limit limit) (ground arith) in
            omega (arith, size, less)
      ]

  module _ (history : List Event)
      (known : (t offset n : ℕ) → w.wallet_events t offset n ≡ ok (take n (drop offset history)))
      (some_limit : 1 ≤ limit) where
    -- Behind a page, reading goes on where it ended.
    turn_page :
        (found : List Deposit) (offset : ℕ) {r answer : List Deposit × ℕ}
        → IsReading p db cs limit (take (event_limit limit) (drop offset history)) found offset r
        → IsReading p db cs limit (drop r.1 history) r.0 r.1 answer
        → IsReading p db cs limit (drop offset history) found offset answer
    turn_page found offset {r} {answer} h k =
        let rest = drop offset history in
        let size = length-take (event_limit limit) rest in
        let within = h.inside in
        let onward : drop r.1 history ≡ drop h.count rest =
          ap (λ n. drop n history) h.advanced ∙ sym (drop-drop offset h.count history) in
        let next : IsReading p db cs limit (drop h.count rest) (found ++ h.new) (offset + h.count)
            answer =
          rw (← onward, ← h.advanced, ← h.added) k in
        read_on h.count h.new rest found offset (omega (arith, size, within))
          (rw (← take-take h.count (event_limit limit) rest (omega (arith, size, within))) h.means)
          next

    Yields-deposit_pages :
        (fuel : ℕ) (found : List Deposit) (offset : ℕ) (s : Daemon)
        → s.db ≡ db
        → Yields
            (deposit_pages p w cs limit fuel found offset)
            s
            (λ r t. IsReading p db cs limit (drop offset history) found offset r × (t.db ≡ db))
    unfolding deposit_pages
    Yields-deposit_pages zero found offset s same = Yields-fail _
    Yields-deposit_pages (suc fuel) found offset s same =
        let rest = drop offset history in
        Yields-if (ltb (length found) limit)
          (λ few. Yields-bind (
            Yields-ask_result _ λ events asked. Yields-bind (
              Yields-map (Yields-take_events events found offset _ same) λ r t h.
                let whole : events ≡ take (event_limit limit) rest =
                  ground (arith, known s.clock offset (event_limit limit)) in
                let read = rw whole at h.0 in
                Yields-if (length events == 0 || ltb (length events) (event_limit limit))
                  (λ short. Yields-pure _ (
                    of_page rest found offset read (elim read.stopped [
                      | inl enough ↦ inl enough
                      | inr all_read ↦
                          inr (short_page rest read.count some_limit (rw whole at short) all_read)
                    ]),
                    h.1,
                  ))
                  (λ full.
                    Yields-map (Yields-deposit_pages fuel r.0 r.1 t h.1)
                      λ answer u k. (turn_page found offset read k.0, k.1)))))
          (λ enough.
            Yields-pure _ (nothing_read rest found offset (inl (ltb_false→le _ _ enough)), same))

-- What a success of `Deposits` comes to, for a history of events and a journal.
pub record IsPage (p : Platform) (db : Db) (cs : ConsensusState) (limit offset : ℕ)
    (history : List Event) (answer : List Deposit × ℕ) : Type 0 where
  pub forward : offset ≤ answer.1
  pub means : deposits_of p db cs (take (answer.1 - offset) (drop offset history)) ≡ ok answer.0
  pub stopped : (limit ≤ length answer.0) ⊎ (length history ≤ answer.1)

-- Where the wallet index answers from one history of events during the call: a success of `Deposits`
-- returns just the deposits that the events from the given offset up to the returned one mean to the
-- journal, in order, and it stopped only at the limit or at the end of the history.
pub deposits-IsPage :
    (p : Platform) (w : World) (history : List Event)
    → ((t offset n : ℕ) → w.wallet_events t offset n ≡ ok (take n (drop offset history)))
    → (limit offset : ℕ) (s t : Daemon) (answer : List Deposit × ℕ)
    → deposits p w limit offset s ≡ (ok answer, t)
    → IsPage p s.db (w.tip_state s.clock) limit offset history answer
unfolding deposits
deposits-IsPage p w history known limit offset s t answer ran = run.at answer t ran
  where
    page :
        (r : List Deposit × ℕ)
        → IsReading p s.db (w.tip_state s.clock) limit (drop offset history) [] offset r
        → IsPage p s.db (w.tip_state s.clock) limit offset history r
    page r h =
        let further = h.advanced in
        let left = length-drop offset history in
        let so_many : r.1 - offset ≡ h.count = omega (arith, further) in
        record {
          forward = omega (arith, further);
          means = rw (so_many, h.added) h.means;
          stopped = elim h.stopped [
            | inl enough ↦ inl enough
            | inr all_read ↦ inr (omega (arith, further, left, all_read))
          ];
        }

    run :
        Yields
          (deposits p w limit offset)
          s
          (λ r _. IsPage p s.db (w.tip_state s.clock) limit offset history r)
    run = Yields-then (
        Yields-require _ _ λ fits. Yields-bind (
          Yields-ask _ (
            Yields-bind (
              Yields-ask_result _ λ scan scanned. Yields-then (
                Yields-require _ _ λ current. Yields-bind (
                  Yields-map
                    (Yields-deposit_pages p w s.db (w.tip_state s.clock) limit history known
                      (leb→le 1 limit (ground arith)) (suc w.page_bound) [] offset _ refl)
                    λ r t h. Yields-bind (
                      Yields-ask_result _ λ end ended. Yields-then (
                        Yields-require _ _ λ same_scan. Yields-bind (
                          Yields-ask _ (
                            Yields-then
                              (Yields-require _ _ λ same_tip. Yields-pure _ (page r h.0))))))))))))
