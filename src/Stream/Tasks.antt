-- ===== src/Stream/Tasks.antt =====
-- src/rosy/asyncio.py: the tasks that write to one `LockableWriter`, each in a body of
-- `async with writer`, interleaved in any order.
pub mod Invariant
pub mod Serial
use mathlib.Core.Logic.{ite}
use rosy.Base.{ℕ, ◌≡◌, Bool, true, false, List, [], ◌∷◌, ◌++◌, ℕ_discrete}
use rosy.Base.Exec.{Result, ok, err}
use rosy.Stream.{Bytes, LockableWriter, write_locked, acquire, release}

-- Where a task stands: before the lock, in the body with these calls of `write` left, behind the
-- body, behind a body that an exception or a cancellation ended, or behind one in which a call of
-- `write` raised.
pub data Stage : Type 0 where
  waiting : Stage
  holding : (left : List Bytes) → Stage
  done : Stage
  interrupted : Stage
  raised : Stage

-- `wrote` has what each task wrote, and `order` the tasks that took the lock, the last one first.
pub record System : Type 0 where
  pub writer : LockableWriter
  pub stage : ℕ → Stage
  pub wrote : ℕ → Bytes
  pub order : List ℕ

abbrev pub update {ℓ} : {A : Type ℓ} → (ℕ → A) → ℕ → A → ℕ → A
update f i a j = ite (ℕ_discrete i j) a (f j)

-- `__aenter__` of the task that gets the lock.
abbrev pub enter_task : ℕ → List Bytes → System → System
enter_task i frame s = record {
  writer = acquire s.writer;
  stage = update s.stage i (Stage.holding frame);
  wrote = s.wrote;
  order = i ∷ s.order;
}

-- `__aexit__`
abbrev pub leave_task : ℕ → Stage → System → System
leave_task i after_body s = record s {
  writer = release s.writer;
  stage = update s.stage i after_body;
}

-- What a call of `write` leaves; one that raises ends the body.
unfoldable pub written_by :
    ℕ → Bytes → List Bytes → System → Result (Unit {0}) × LockableWriter → System
written_by i piece left s (ok _, w) = record s {
  writer = w;
  stage = update s.stage i (Stage.holding left);
  wrote = update s.wrote i (s.wrote i ++ piece);
}
written_by i piece left s (err _, w) = record s {
  writer = release w;
  stage = update s.stage i Stage.raised;
}

-- A step of a task; a body stands still at any `await`, where the others go on. `frame` has the
-- calls of `write` that the body of each task makes.
pub data Step (frame : ℕ → List Bytes) (s : System) : System → Type 0 where
  enter :
      (i : ℕ)
      → s.stage i ≡ Stage.waiting
      → s.writer.locked ≡ false
      → Step frame s (enter_task i (frame i) s)
  write :
      (i : ℕ) (piece : Bytes) (left : List Bytes)
      → s.stage i ≡ Stage.holding (piece ∷ left)
      → Step frame s (written_by i piece left s (write_locked piece s.writer))
  leave : (i : ℕ) → s.stage i ≡ Stage.holding [] → Step frame s (leave_task i Stage.done s)
  interrupt :
      (i : ℕ) (left : List Bytes)
      → s.stage i ≡ Stage.holding left
      → Step frame s (leave_task i Stage.interrupted s)

-- A writer whose lock is free, and no task has begun.
abbrev pub initial : LockableWriter → System
initial w = record { writer = w; stage = λ _. Stage.waiting; wrote = λ _. []; order = [] }

pub data Reach (frame : ℕ → List Bytes) (w : LockableWriter) : System → Type 0 where
  start : Reach frame w (initial w)
  later : {s t : System} → Reach frame w s → Step frame s t → Reach frame w t
