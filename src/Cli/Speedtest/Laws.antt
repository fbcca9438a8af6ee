-- ===== src/Cli/Speedtest/Laws.antt =====
-- What a speed test sends and measures, and what the receiver reports.
use rosy.Base.{
  ℕ, suc, ◌+◌, ◌-◌, ◌≤◌, ◌<◌, ◌≡◌, refl, sym, ap, ◌∙◌, true, false, Option, none, some, List, [],
  ◌∷◌, ◌++◌, map, length, All, arith, ltb, ◌==◌, append_assoc, append-nil, inl, inr, Bool-cases,
}
use rosy.Base.Exec.{ok}
use rosy.Cli.Speedtest.{
  Message, warmup, data_, stop, Round, Run, count_rounds, finish_measure, measure_from, warm_up,
  measure_mps, report, or_zero, is_last,
}

-- A round before the time whose send and sleep raise nothing.
abbrev pub Before : ℕ → Round → Type 0
Before until round = (round.at < until) × (round.sent ≡ ok tt) × (round.slept ≡ ok tt)

abbrev pub times : List Round → Message → List Message
times [] message = []
times (_ ∷ rounds) message = message ∷ times rounds message

ltb-true : (m n : ℕ) → m < n → ltb m n ≡ true
ltb-true m n h = ground (arith, h)

ltb-false : (m n : ℕ) → n ≤ m → ltb m n ≡ false
ltb-false m n h = ground (arith, h)

count_rounds_lem :
    (until count : ℕ) (rounds : List Round) (last : Round) (log : List Message)
    → All (Before until) rounds
    → until ≤ last.at
    → count_rounds until count (rounds ++ last ∷ []) log
      ≡ (some (ok (length rounds + count, last.at)), log ++ times rounds data_)
unfolding count_rounds
count_rounds_lem until count [] last log h late =
    rw (ltb-false last.at until late)
      (λ i. (some (ok (none_counted i, last.at)), sym (append-nil log) i))
  where
    none_counted : count ≡ 0 + count
    none_counted = omega arith
count_rounds_lem until count (round ∷ rounds) last log h late =
    rw (ltb-true round.at until h.0.0, h.0.1, h.0.2)
      (count_rounds_lem until (1 + count) rounds last (log ++ data_ ∷ []) h.1 late ∙ (λ i.
        (some (ok (counted i, last.at)), append_assoc log (data_ ∷ []) (times rounds data_) i)))
  where
    counted : length rounds + (1 + count) ≡ suc (length rounds) + count
    counted = omega arith

warm_up_lem :
    (end_time : ℕ) (next : List Round → List Message → Run (ℕ × ℕ)) (rounds : List Round)
    (last : Round) (rest : List Round) (log : List Message)
    → All (Before end_time) rounds
    → end_time ≤ last.at
    → warm_up end_time next (rounds ++ last ∷ rest) log ≡ next rest (log ++ times rounds warmup)
unfolding warm_up
warm_up_lem end_time next [] last rest log h late =
    rw (ltb-false last.at end_time late) (ap (next rest) (sym (append-nil log)))
warm_up_lem end_time next (round ∷ rounds) last rest log h late =
    rw (ltb-true round.at end_time h.0.0, h.0.1, h.0.2)
      (warm_up_lem end_time next rounds last rest (log ++ warmup ∷ []) h.1 late
        ∙ ap (next rest) (append_assoc log (warmup ∷ []) (times rounds warmup)))

measure_from_lem :
    (run_time : ℕ) (start : Round) (rounds : List Round) (last : Round) (log : List Message)
    → 0 < run_time
    → All (Before (start.at + run_time)) rounds
    → start.at + run_time ≤ last.at
    → measure_from run_time (ok tt) (start ∷ (rounds ++ last ∷ [])) log
      ≡ (some (ok (length rounds, last.at - start.at)), (log ++ times rounds data_) ++ stop ∷ [])
unfolding measure_from
measure_from_lem run_time start rounds last log positive h late =
    ap (finish_measure start.at (ok tt))
      (count_rounds_lem (start.at + run_time) 0 rounds last log h late)
    ∙ rw took (
        ap (λ n. (some (ok (n, last.at - start.at)), (log ++ times rounds data_) ++ stop ∷ []))
          counted)
  where
    took : (last.at - start.at == 0) ≡ false
    took = ground (arith, positive, late)

    counted : length rounds + 0 ≡ length rounds
    counted = omega arith

-- With listeners, a warm-up and a time to run above 0, and no send and no sleep that raises: as
-- many messages are sent to "warmup" as there are readings before the end of the warm-up, as many
-- with data as there are then readings before the end of the time to run, and one to "stop" at the
-- end. The result has the number of the data messages only, and the time from the reading behind
-- the warm-up to the first one that is not before the end, which is at least the time to run.
pub measure_mps_lem :
    (run_time warmup_time : ℕ) (first : Round) (warm : List Round) (warmed start : Round)
    (rounds : List Round) (last : Round)
    → 0 < warmup_time
    → 0 < run_time
    → All (Before (first.at + warmup_time)) warm
    → first.at + warmup_time ≤ warmed.at
    → All (Before (start.at + run_time)) rounds
    → start.at + run_time ≤ last.at
    → (measure_mps true run_time warmup_time
          (ok tt)
          (first ∷ (warm ++ warmed ∷ start ∷ (rounds ++ last ∷ [])))
        ≡ (
          some (ok (length rounds, last.at - start.at)),
          (times warm warmup ++ times rounds data_) ++ stop ∷ [],
        ))
      × (run_time ≤ last.at - start.at)
unfolding measure_mps
measure_mps_lem run_time warmup_time first warm warmed start rounds last w r before over h late = (
  rw (ltb-true 0 warmup_time w) (
      warm_up_lem (first.at + warmup_time) (measure_from run_time (ok tt)) warm warmed
        (start ∷ (rounds ++ last ∷ [])) [] before over
      ∙ measure_from_lem run_time start rounds last (times warm warmup) r h late),
  omega (arith, late),
)

abbrev pub Rising : ℕ → List ℕ → Type 0
Rising low [] = Unit
Rising low (count ∷ counts) = (low ≤ count) × Rising count counts

abbrev pub final : ℕ → List ℕ → ℕ
final low [] = low
final low (count ∷ counts) = final count counts

abbrev pub sum : List ℕ → ℕ
sum [] = 0
sum (n ∷ ns) = n + sum ns

-- A receiver whose count does not fall, and that is stopped, ends, and what it reports adds up to
-- the last count that it saw: each message is reported once.
report-sum :
    (last_count : Option ℕ) (counts : List ℕ) (after_stop : ℕ)
    → Rising (or_zero last_count) counts
    → (reports : List ℕ) × (report last_count
          (map (λ n. (false, n)) counts ++ (true, after_stop) ∷ [])
        ≡ some reports)
      × (or_zero last_count + sum reports ≡ final (or_zero last_count) counts)
unfolding report
report-sum last_count [] after_stop h = ([], refl, omega arith)
report-sum last_count (count ∷ counts) after_stop h =
    let (later, runs, adds) = report-sum (some count) counts after_stop h.1 in
    elim (Bool-cases (is_last count last_count)) [
      | inl e ↦ (later, rw e runs, ap (λ n. n + sum later) (same_count last_count count e) ∙ adds)
      | inr e ↦ ((count - or_zero last_count) ∷ later, rw (e, runs) refl, omega (arith, adds, h.0))
    ]
  where
    same_count :
        (last_count : Option ℕ) (count : ℕ)
        → is_last count last_count ≡ true
        → or_zero last_count ≡ count
    same_count none count e = absurd (ground (arith, e))
    same_count (some n) count e = ground (arith, e)
