-- ===== src/Tests/Speed.antt =====
-- A speed test at a concrete clock.
use rosy.Base.{ℕ, ◌-◌, ◌≤◌, ◌≡◌, refl, [], ◌∷◌, ◌++◌, length, true, some, arith}
use rosy.Base.Exec.{ok}
use rosy.Cli.Speedtest.{Round, stop, warmup, data_, measure_mps}
use rosy.Cli.Speedtest.Laws.{times, measure_mps_lem}

abbrev round : ℕ → Round
round n = record { at = n; sent = ok tt; slept = ok tt }

-- One message of the warm-up, and two that are measured.
measure_mps_example :
    (measure_mps true 5 2 (ok tt) (
        round 10
        ∷ (round 11 ∷ [] ++ round 12 ∷ round 13 ∷ ((round 14 ∷ round 16 ∷ []) ++ round 19 ∷ [])))
      ≡ (
        some (ok (length (round 14 ∷ round 16 ∷ []), 19 - 13)),
        (times (round 11 ∷ []) warmup ++ times (round 14 ∷ round 16 ∷ []) data_) ++ stop ∷ [],
      ))
    × (5 ≤ 19 - 13)
measure_mps_example =
    measure_mps_lem 5 2 (round 10) (round 11 ∷ []) (round 12) (round 13) (round 14 ∷ round 16 ∷ [])
      (round 19) (omega arith) (omega arith) ((omega arith, refl, refl), tt) (omega arith)
      ((omega arith, refl, refl), ((omega arith, refl, refl), tt)) (omega arith)
