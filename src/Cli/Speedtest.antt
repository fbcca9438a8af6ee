-- ===== src/Cli/Speedtest.antt =====
-- The speed test between two nodes, src/rosy/cli/speedtest.py. Clock readings are in ticks; printing
-- is left out.
pub mod Laws
use rosy.Base.{
  ℕ, ◌+◌, ◌-◌, Bool, true, false, Option, none, some, List, [], ◌∷◌, ◌++◌, ltb, ◌==◌, if◌then◌else◌,
}
use rosy.Base.Exec.{Error, Result, ok, err, value_error, foreign}

-- What the sender sends: a text to the topic "warmup", the data to the topic that is tested, or a
-- text to the topic "stop".
pub data Message : Type 0 where
  warmup data_ stop : Message

-- A round of a loop: the reading of `time.monotonic()`, and what the send and the sleep give.
pub record Round : Type 0 where
  pub at : ℕ
  pub sent : Result (Unit {0})
  pub slept : Result (Unit {0})

-- What a run gives, `none` where it still goes on, beside the messages sent.
abbrev pub Run : Type 0 → Type 0
Run A = Option (Result A) × List Message

-- The send and the sleep of a round, and what follows them.
abbrev pub send_in : {A : Type 0} → Message → Round → (List Message → Run A) → List Message → Run A
send_in message round rest log = elim round.sent [
  | ok _ ↦ elim round.slept [
    | ok _ ↦ rest (log ++ message ∷ [])
    | err e ↦ (some (err e), log ++ message ∷ [])
  ]
  | err e ↦ (some (err e), log)
]

-- The loop that counts messages: what it gives is the count and the last reading.
unfoldable pub count_rounds : ℕ → ℕ → List Round → List Message → Run (ℕ × ℕ)
count_rounds until count [] log = (none, log)
count_rounds until count (round ∷ rounds) log =
    let rest = send_in data_ round (count_rounds until (1 + count) rounds) log in
    if ltb round.at until then rest else (some (ok (count, round.at)), log)

-- What follows the loop: the message to "stop", and the number of messages and the time they took,
-- which stand for their quotient. `stopped` is what the send gives.
abbrev pub finish_measure : ℕ → Result (Unit {0}) → Run (ℕ × ℕ) → Run (ℕ × ℕ)
finish_measure start_time stopped (none, log) = (none, log)
finish_measure start_time stopped (some (err e), log) = (some (err e), log)
finish_measure start_time (err e) (some (ok _), log) = (some (err e), log)
finish_measure start_time (ok _) (some (ok (message_count, end_time)), log) =
    let true_duration = end_time - start_time in
    (
      some (if true_duration == 0 then err foreign else ok (message_count, true_duration)),
      log ++ stop ∷ [],
    )

-- From the reading of `start_time` on.
unfoldable pub measure_from : ℕ → Result (Unit {0}) → List Round → List Message → Run (ℕ × ℕ)
unfolding count_rounds
measure_from run_time stopped [] log = (none, log)
measure_from run_time stopped (start ∷ rounds) log =
    finish_measure start.at stopped (count_rounds (start.at + run_time) 0 rounds log)

-- The loop of the warm-up, and what follows it.
unfoldable pub warm_up :
    ℕ → (List Round → List Message → Run (ℕ × ℕ)) → List Round → List Message → Run (ℕ × ℕ)
warm_up end_time next [] log = (none, log)
warm_up end_time next (round ∷ rounds) log =
    let again = send_in warmup round (warm_up end_time next rounds) log in
    if ltb round.at end_time then again else next rounds log

-- `SpeedTest.measure_mps`; `stopped` is what the send to "stop" gives. A reading that only sets a
-- time is a round whose send and sleep are not looked at.
unfoldable pub measure_mps : Bool → ℕ → ℕ → Result (Unit {0}) → List Round → Run (ℕ × ℕ)
unfolding measure_from warm_up
measure_mps has_listeners run_time warmup_time stopped rounds =
    if has_listeners
    then if ltb 0 warmup_time then warmed rounds else measure_from run_time stopped rounds []
    else (some (err value_error), [])
  where
    warmed : List Round → Run (ℕ × ℕ)
    warmed [] = (none, [])
    warmed (first ∷ rest) = warm_up (first.at + warmup_time) (measure_from run_time stopped) rest []

-- The arithmetic of floating-point numbers.
pub record Floats (F : Type 0) : Type 0 where
  pub zero_ : F
  pub plus : F → F → F
  pub minus : F → F → F
  pub over : F → ℕ → F

-- What the receiver has counted.
pub record Received (F : Type 0) : Type 0 where
  pub message_count : ℕ
  pub avg_latency : F

unfoldable pub new_received : {F : Type 0} → Floats F → Received F
new_received floats = record { message_count = 0; avg_latency = floats.zero_ }

-- `handle_message` of `SpeedTest.receive`
unfoldable pub handle_message : {F : Type 0} → Floats F → F → F → Received F → Received F
handle_message floats now send_time r =
    let dt = floats.minus now send_time in
    let message_count = r.message_count + 1 in
    record {
      message_count = message_count;
      avg_latency =
          floats.plus r.avg_latency (floats.over (floats.minus dt r.avg_latency) message_count);
    }

abbrev pub is_last : ℕ → Option ℕ → Bool
is_last message_count none = false
is_last message_count (some last_count) = message_count == last_count

-- `last_count or 0`
abbrev pub or_zero : Option ℕ → ℕ
or_zero none = 0
or_zero (some last_count) = last_count

-- The loop of `SpeedTest.receive`: for each round, whether the stop signal is set before it, and
-- the message count after its sleep, which never falls. It gives the rates of messages that are
-- printed, `none` where it still goes on.
unfoldable pub report : Option ℕ → List (Bool × ℕ) → Option (List ℕ)
report last_count [] = none
report last_count ((stopped, message_count) ∷ rounds) =
    let rest = report (some message_count) rounds in
    let mps = message_count - or_zero last_count in
    if stopped
    then some []
    else if is_last message_count last_count
    then rest
    else elim rest [ none ↦ none | some later ↦ some (mps ∷ later) ]
