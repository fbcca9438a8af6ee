-- ===== src/Stream/Tasks/Invariant.antt =====
-- What holds of the tasks of a `LockableWriter` at every step.
use mathlib.Core.Logic.{ite}
use mathlib.Core.Path.{ap₂}
use rosy.Base.{
  ℕ, ◌≡◌, ◌≢◌, refl, sym, ap, ◌∙◌, subst, Bool, true, false, List, [], ◌∷◌, ◌++◌, append-nil,
  append_assoc, ℕ_discrete, arith,
}
use rosy.Base.Exec.{ok}
use rosy.Stream.{Bytes, LockableWriter, write_locked, require_locked, acquire, release}
use rosy.Stream.Tasks.{
  Stage, System, update, enter_task, leave_task, written_by, Step, enter, leave, interrupt, Reach,
  start, later,
}

-- The bytes of the calls of `write` of a body.
abbrev pub joined : List Bytes → Bytes
joined [] = []
joined (piece ∷ pieces) = piece ++ joined pieces

abbrev pub behind : Bytes → (ℕ → Bytes) → List ℕ → Bytes
behind bytes wrote [] = bytes
behind bytes wrote (i ∷ order) = behind bytes wrote order ++ wrote i

abbrev pub Absent : ℕ → List ℕ → Type 0
Absent i [] = Unit
Absent i (j ∷ js) = (i ≢ j) × Absent i js

-- The task took the lock last.
abbrev pub Newest : ℕ → List ℕ → Type 0
Newest i [] = ⊥
Newest i (j ∷ js) = (i ≡ j) × Absent i js

-- What the stage of a task says of its calls of `write`, the tasks in order, the lock, and what the
-- task wrote.
abbrev pub Stands : List Bytes → List ℕ → Bool → Bytes → ℕ → Stage → Type 0
Stands frame order locked wrote i Stage.waiting = Absent i order × (wrote ≡ [])
Stands frame order locked wrote i (Stage.holding left) =
    (locked ≡ true) × Newest i order × (wrote ++ joined left ≡ joined frame)
Stands frame order locked wrote i Stage.done = wrote ≡ joined frame
Stands frame order locked wrote i Stage.interrupted =
    (rest : Bytes) × (wrote ++ rest ≡ joined frame)
Stands frame order locked wrote i Stage.raised = ⊥

pub record Inv (frame : ℕ → List Bytes) (w : LockableWriter) (s : System) : Type 0 where
  pub gathered : s.writer.written ≡ behind w.written s.wrote s.order
  pub closing : s.writer.closing ≡ w.closing
  pub stands : (i : ℕ) → Stands (frame i) s.order s.writer.locked (s.wrote i) i (s.stage i)

module _ {A : Type 0} (f : ℕ → A) (i : ℕ) (a : A) where
  update_here : update f i a i ≡ a
  update_here = ground arith

  update_there : (j : ℕ) → i ≢ j → update f i a j ≡ f j
  update_there j h = ground (arith, h)

behind-update :
    (bytes : Bytes) (wrote : ℕ → Bytes) (i : ℕ) (a : Bytes) (order : List ℕ)
    → Absent i order
    → behind bytes (update wrote i a) order ≡ behind bytes wrote order
behind-update bytes wrote i a [] h = refl
behind-update bytes wrote i a (j ∷ js) h =
    rw (behind-update bytes wrote i a js h.1, update_there wrote i a j h.0) refl

-- A property of each task, where one task is updated.
each :
    (P : ℕ → Stage → Type 0) (stage : ℕ → Stage) (i : ℕ) (a : Stage)
    → P i a
    → ((j : ℕ) → i ≢ j → P j (stage j))
    → (j : ℕ) → P j (update stage i a j)
each P stage i a here there j = elim (ℕ_discrete i j) as (λ d. P j (ite d a (stage j))) [
  | yes e ↦ subst (λ k. P k a) e here
  | no n ↦ there j n
]

write_locked-held :
    (piece : Bytes) (w : LockableWriter)
    → w.locked ≡ true
    → write_locked piece w ≡ (ok tt, record w { written = w.written ++ piece })
unfolding write_locked require_locked
write_locked-held piece w h = rw h refl

pub Newest-eq : (i j : ℕ) (order : List ℕ) → Newest i order → Newest j order → i ≡ j
Newest-eq i j [] h k = absurd h
Newest-eq i j (o ∷ order) h k = h.0 ∙ sym k.0

module _ (frame : List Bytes) (order : List ℕ) (wrote : Bytes) (j : ℕ) where
  -- Another task takes the free lock.
  Stands-enter :
      (i : ℕ) (x : Stage)
      → i ≢ j
      → Stands frame order false wrote j x
      → Stands frame (i ∷ order) true wrote j x
  Stands-enter i Stage.waiting n h = ((λ e. n (sym e), h.0), h.1)
  Stands-enter i (Stage.holding left) n h = absurd (ground (arith, h.0))
  Stands-enter i Stage.done n h = h
  Stands-enter i Stage.interrupted n h = h
  Stands-enter i Stage.raised n h = absurd h

  -- Another task lets the lock go.
  Stands-leave :
      (i : ℕ) (x : Stage)
      → i ≢ j
      → Newest i order
      → Stands frame order true wrote j x
      → Stands frame order false wrote j x
  Stands-leave i Stage.waiting n new h = h
  Stands-leave i (Stage.holding left) n new h = absurd (n (Newest-eq i j order new h.1))
  Stands-leave i Stage.done n new h = h
  Stands-leave i Stage.interrupted n new h = h
  Stands-leave i Stage.raised n new h = absurd h

module _ (frame : ℕ → List Bytes) (w : LockableWriter) where
  module _ (s : System) (inv : Inv frame w s) (i : ℕ) where
    pub at_stage :
        (x : Stage) → s.stage i ≡ x → Stands (frame i) s.order s.writer.locked (s.wrote i) i x
    at_stage x e = subst (Stands (frame i) s.order s.writer.locked (s.wrote i) i) e (inv.stands i)

    enter-Inv :
        s.stage i ≡ Stage.waiting → s.writer.locked ≡ false → Inv frame w (enter_task i (frame i) s)
    unfolding acquire
    enter-Inv e free =
        let (absent, nothing) = at_stage Stage.waiting e in
        record {
          gathered =
              inv.gathered
              ∙ sym (append-nil (behind w.written s.wrote s.order))
              ∙ ap (λ b. behind w.written s.wrote s.order ++ b) (sym nothing);
          closing = inv.closing;
          stands =
              each (λ j. Stands (frame j) (i ∷ s.order) true (s.wrote j) j) s.stage i
                (Stage.holding (frame i))
                (refl, (refl, absent), ap (λ b. b ++ joined (frame i)) nothing)
                (λ j n. Stands-enter (frame j) s.order (s.wrote j) j i (s.stage j) n (
                  subst (λ l. Stands (frame j) s.order l (s.wrote j) j (s.stage j)) free
                    (inv.stands j)));
        }

    leave-Inv :
        (left : List Bytes) (x : Stage)
        → s.stage i ≡ Stage.holding left
        → Stands (frame i) s.order false (s.wrote i) i x
        → Inv frame w (leave_task i x s)
    unfolding release
    leave-Inv left x e here =
        let (held, newest, _) = at_stage (Stage.holding left) e in
        record {
          gathered = inv.gathered;
          closing = inv.closing;
          stands =
              each (λ j. Stands (frame j) s.order false (s.wrote j) j) s.stage i x here
                (λ j n. Stands-leave (frame j) s.order (s.wrote j) j i (s.stage j) n newest (
                  subst (λ l. Stands (frame j) s.order l (s.wrote j) j (s.stage j)) held
                    (inv.stands j)));
        }

    write-Inv :
        (piece : Bytes) (left : List Bytes)
        → s.stage i ≡ Stage.holding (piece ∷ left)
        → Inv frame w (written_by i piece left s (write_locked piece s.writer))
    unfolding written_by
    write-Inv piece left e =
        let (held, newest, mine) = at_stage (Stage.holding (piece ∷ left)) e in
        subst (λ r. Inv frame w (written_by i piece left s r))
          (sym (write_locked-held piece s.writer held))
          (record {
            gathered = ap (λ b. b ++ piece) inv.gathered ∙ behind-newest s.order newest;
            closing = inv.closing;
            stands =
                each (λ j. Stands (frame j) s.order s.writer.locked (wrote' j) j) s.stage i
                  (Stage.holding left)
                  (
                    held,
                    newest,
                    ap (λ b. b ++ joined left) (update_here s.wrote i (s.wrote i ++ piece))
                        ∙ append_assoc (s.wrote i) piece (joined left)
                        ∙ mine,
                  )
                  (λ j n.
                    subst (λ b. Stands (frame j) s.order s.writer.locked b j (s.stage j))
                      (sym (update_there s.wrote i (s.wrote i ++ piece) j n)) (inv.stands j));
          })
      where
        wrote' : ℕ → Bytes
        wrote' = update s.wrote i (s.wrote i ++ piece)

        behind-newest :
            (order : List ℕ)
            → Newest i order
            → behind w.written s.wrote order ++ piece ≡ behind w.written wrote' order
        behind-newest [] h = absurd h
        behind-newest (j ∷ js) h =
            append_assoc (behind w.written s.wrote js) (s.wrote j) piece
            ∙ ap₂ ◌++◌ (sym (behind-update w.written s.wrote i (s.wrote i ++ piece) js h.1)) (
                ap (λ k. s.wrote k ++ piece) (sym h.0)
                ∙ sym (update_here s.wrote i (s.wrote i ++ piece))
                ∙ ap wrote' h.0)

  step-Inv : (s t : System) → Inv frame w s → Step frame s t → Inv frame w t
  step-Inv s t inv (enter i e free) = enter-Inv s inv i e free
  step-Inv s t inv (Step.write i piece left e) = write-Inv s inv i piece left e
  step-Inv s t inv (leave i e) =
      leave-Inv s inv i [] Stage.done e
        (sym (append-nil (s.wrote i)) ∙ (at_stage s inv i (Stage.holding []) e).2)
  step-Inv s t inv (interrupt i left e) =
      leave-Inv s inv i left Stage.interrupted e
        (joined left, (at_stage s inv i (Stage.holding left) e).2)

  pub Reach-Inv : (s : System) → Reach frame w s → Inv frame w s
  Reach-Inv s start = record { gathered = refl; closing = refl; stands = λ i. (tt, refl) }
  Reach-Inv t (later {s} r step) = step-Inv s t (Reach-Inv s r) step
