-- ===== src/Tests/Tasks.antt =====
-- Tasks that write to one writer, at a concrete interleaving.
use rosy.Base.{ℕ, ◌≡◌, refl, List, [], ◌∷◌, false, ℕ_discrete}
use rosy.Stream.{Bytes, LockableWriter, write_locked, acquire, release}
use rosy.Stream.Tasks.{System, written_by, enter, write, leave, interrupt, Reach, start, later}
use rosy.Stream.Tasks.Invariant.{Stands}
use rosy.Stream.Tasks.Serial.{serially, tasks_serialized}

abbrev writer : LockableWriter
writer = record { written = b'x' ∷ []; locked = false; closing = false }

-- Each body writes two pieces.
abbrev frame : ℕ → List Bytes
frame i = (b'a' ∷ []) ∷ (b'b' ∷ []) ∷ []

-- Task 1 is interrupted within its body, and task 0 writes whole.
ran : (s : System) × Reach frame writer s
unfolding ℕ_discrete written_by write_locked acquire release
ran =
    let one =
      later (later start (enter 1 refl refl)) (write 1 (b'a' ∷ []) ((b'b' ∷ []) ∷ []) refl) in
    let freed = later one (interrupt 1 ((b'b' ∷ []) ∷ []) refl) in
    let two =
      later (later freed (enter 0 refl refl)) (write 0 (b'a' ∷ []) ((b'b' ∷ []) ∷ []) refl) in
    (_, later (later two (write 0 (b'b' ∷ []) [] refl)) (leave 0 refl))

tasks_serialized_example :
    (release ran.0.writer ≡ serially ran.0.wrote ran.0.order writer)
    × Stands (frame 0) ran.0.order ran.0.writer.locked (ran.0.wrote 0) 0 (ran.0.stage 0)
tasks_serialized_example = tasks_serialized frame writer ran.0 ran.1 0 refl
