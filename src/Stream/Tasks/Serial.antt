-- ===== src/Stream/Tasks/Serial.antt =====
-- The writes of the tasks of a `LockableWriter` do not mix.
use rosy.Base.{ℕ, ◌≡◌, ap, ◌∙◌, false, true, sym, List, [], ◌∷◌}
use rosy.Stream.{Bytes, LockableWriter, write, release, with_lock}
use rosy.Stream.Tasks.{Stage, System, Reach}
use rosy.Stream.Tasks.Invariant.{behind, Stands, Newest-eq, at_stage, Reach-Inv}

-- The bodies of `with_lock`, one after the other, the first of the list last.
unfoldable pub serially : (ℕ → Bytes) → List ℕ → LockableWriter → LockableWriter
unfolding with_lock write
serially wrote [] w = w
serially wrote (i ∷ order) w = (with_lock (write (wrote i)) (serially wrote order w)).1

serially-eq :
    (wrote : ℕ → Bytes) (order : List ℕ) (w : LockableWriter)
    → w.locked ≡ false
    → serially wrote order w
      ≡ record { written = behind w.written wrote order; locked = false; closing = w.closing }
unfolding serially release
serially-eq wrote [] w free =
    λ i. record { written = w.written; locked = free i; closing = w.closing }
serially-eq wrote (i ∷ order) w free =
    ap (λ v. (with_lock (write (wrote i)) v).1) (serially-eq wrote order w free)

module _ (frame : ℕ → List Bytes) (w : LockableWriter) (s : System) (r : Reach frame w s) where
  -- However the tasks that write to a free writer are interleaved, and wherever some of them are
  -- interrupted: the writer is, but for its lock, what it is where the tasks that took the lock
  -- run whole, each in its own `with_lock`, one after the other in that order, each with the bytes
  -- that it wrote. A task that waits has written nothing; one in its body holds the lock, was the
  -- last to take it, and has written all but the calls of `write` that are left; one that ended
  -- has written all its bytes, and an interrupted one the first of them. No call of `write` raises.
  pub tasks_serialized :
      (i : ℕ)
      → w.locked ≡ false
      → (release s.writer ≡ serially s.wrote s.order w)
        × Stands (frame i) s.order s.writer.locked (s.wrote i) i (s.stage i)
  unfolding release
  tasks_serialized i free =
      let inv = Reach-Inv frame w s r in
      (
        (λ k. record { written = inv.gathered k; locked = false; closing = inv.closing k })
            ∙ sym (serially-eq s.wrote s.order w free),
        inv.stands i,
      )

  -- Two tasks that are in their bodies at one time are one task, and the lock is taken.
  one_holder :
      (i j : ℕ) (left left' : List Bytes)
      → s.stage i ≡ Stage.holding left
      → s.stage j ≡ Stage.holding left'
      → (i ≡ j) × (s.writer.locked ≡ true)
  one_holder i j left left' e e' =
      let inv = Reach-Inv frame w s r in
      let (held, newest, _) = at_stage frame w s inv i (Stage.holding left) e in
      let (_, newest', _) = at_stage frame w s inv j (Stage.holding left') e' in
      (Newest-eq i j s.order newest newest', held)
