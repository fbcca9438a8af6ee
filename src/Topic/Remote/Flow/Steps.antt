-- ===== src/Topic/Remote/Flow/Steps.antt =====
-- Each step of a schedule keeps what is known of its points, and so does a whole schedule.
use rosy.Base.{
  ℕ, suc, ◌+◌, ◌≡◌, refl, sym, ap, ◌∙◌, subst, Bool, true, false, Option, none, some, List, [], ◌∷◌,
  ◌++◌, length, map, length-map, All, arith, append_assoc, append-nil, if◌then◌else◌, ◌&&◌,
}
use rosy.Stream.{LockableWriter}
use rosy.Mesh.{NodeId}
use rosy.Topic.Outbox.{Outbox, Item, Attempt, send_once, goes_on, full}
use rosy.Topic.Sender.{Outboxes}
use rosy.Topic.Sender.Laws.{IsAlive, outbox_for, with_entry, alive_for}
use rosy.Topic.Remote.Schedule.{
  Event, sends, takes, finishes, Line, writes, put, taken, take_item, finish_item, sent_on, step,
  run_line, lost_in, losses, waiting, sent_in,
}
use rosy.Topic.Remote.Losses.{Drops, lose}
use rosy.Topic.Remote.Streams.{
  Calm, IsCalm, send_once_written, send_once-goes_on, counted, chosen, chosen-snoc, as_list, stream,
}
use rosy.Topic.Remote.Flow.{
  flight_of, stream-snoc, Holds, Delivers, Flows, entered, set-IsAlive, outbox_for-set,
}

module _ {A X : Type 0} (id : NodeId) (deliver : A → X × Outboxes → X × Outboxes)
    (for_id : A → Bool) (entry : A → Item) where
  abbrev Holding : Outbox → List A → Type 0
  Holding = Holds id deliver for_id entry

  abbrev pub Delivering : (X → Type 0) → A → Type 0
  Delivering = Delivers id deliver for_id entry

  abbrev pub Flowing : (X → Type 0) → ℕ → List A → Line X → Type 0
  Flowing = Flows id deliver for_id entry

  module _ (Kept : X → Type 0) where
    after_send :
        (a : A) {n : ℕ} {sent : List A} (l : Line X)
        → Delivering Kept a
        → Flowing Kept n sent l
        → Flowing Kept
            (lost_in id deliver for_id (sends a) l + n)
            (if for_id a then sent ++ a ∷ [] else sent)
            (sent_on id deliver a l)
    after_send a {n} {sent} l d f =
        let (kept', alive', (now, e, did)) = d l.selector l.boxes f.kept f.alive in
        let o = outbox_for id l.boxes in
        elim (for_id a)
            as (λ b.
              outbox_for id (deliver a (l.selector, l.boxes)).1
                ≡ (if b then with_entry now (entry a).1 o else o)
              → Flowing Kept ((if b && full o then 1 else 0) + n)
                  (if b then sent ++ a ∷ [] else sent) (sent_on id deliver a l)) [
                    | true ↦ λ did'.
                        let (p, h, r) =
                          entered id deliver for_id entry (f.written ++ as_list f.taken_off) a now o
                            (full o) f.pending refl e f.holds f.lost in
                        record {
                          written = f.written;
                          taken_off = f.taken_off;
                          pending = p;
                          kept = kept';
                          alive = alive';
                          bytes = f.bytes;
                          in_flight = f.in_flight;
                          holds = subst (λ x. Holding x p) (sym did') h;
                          lost =
                              subst
                                (λ k.
                                  Drops k ((f.written ++ as_list f.taken_off) ++ p)
                                    (sent ++ a ∷ []))
                                (counted (full o) n) r;
                        }
                    | false ↦ λ did'. record {
                      written = f.written;
                      taken_off = f.taken_off;
                      pending = f.pending;
                      kept = kept';
                      alive = alive';
                      bytes = f.bytes;
                      in_flight = f.in_flight;
                      holds = subst (λ x. Holding x f.pending) (sym did') f.holds;
                      lost =
                          subst
                            (λ k. Drops k ((f.written ++ as_list f.taken_off) ++ f.pending) sent)
                            (counted false n) f.lost;
                    }
                  ]
          did

    -- The task waits, or it has taken the oldest entry.
    taken_from :
        {n : ℕ} {sent : List A} (l : Line X) (written pending : List A)
        → Kept l.selector
        → IsAlive l.boxes
        → l.writer.written ≡ stream entry written
        → l.flight ≡ none
        → Holding (outbox_for id l.boxes) pending
        → Drops n ((written ++ []) ++ pending) sent
        → Flowing Kept n sent (taken id (map entry pending) l)
    taken_from l written [] k v b i h d = record {
      written = written;
      taken_off = none;
      pending = [];
      kept = k;
      alive = v;
      bytes = b;
      in_flight = i;
      holds = h;
      lost = d;
    }
    taken_from {n} {sent} l written (a ∷ p) k v b i h d =
        let o : Outbox = record (outbox_for id l.boxes) { queue = map entry p } in
        record {
          written = written;
          taken_off = some a;
          pending = p;
          kept = k;
          alive = set-IsAlive id deliver for_id entry o l.boxes (alive_for 0 [] id l.boxes v) v;
          bytes = b;
          in_flight = refl;
          holds =
              subst (λ x. Holding x p) (sym (outbox_for-set id deliver for_id entry o l.boxes))
                (record { queued = refl; limit = h.limit; living = h.living });
          lost =
              subst (λ x. Drops n x sent)
                (ap (λ w. w ++ a ∷ p) (append-nil written) ∙ sym (append_assoc written (a ∷ []) p))
                d;
        }

    after_take :
        {n : ℕ} {sent : List A} (l : Line X)
        → Flowing Kept n sent l
        → Flowing Kept n sent (take_item id l)
    unfolding take_item
    after_take {n} {sent} l f = went f.taken_off f.in_flight f.lost
      where
        line_of : Option Item → Line X
        line_of x = elim x [
          | some _ ↦ l
          | none ↦
              if (outbox_for id l.boxes).finished
              then l
              else taken id (outbox_for id l.boxes).queue l
        ]

        went :
            (t : Option A)
            → l.flight ≡ flight_of id deliver for_id entry t
            → Drops n ((f.written ++ as_list t) ++ f.pending) sent
            → Flowing Kept n sent (take_item id l)
        went none i d =
            subst (Flowing Kept n sent)
              (ap (λ q. taken id q l) (sym f.holds.queued)
                ∙ ap (λ b. if b then l else taken id (outbox_for id l.boxes).queue l)
                    (sym (alive_for 0 [] id l.boxes f.alive))
                ∙ ap line_of (sym i))
              (taken_from l f.written f.pending f.kept f.alive f.bytes i f.holds d)
        went (some a) i d = subst (Flowing Kept n sent) (ap line_of (sym i)) f

    finished_with :
        (b : Bool) {n : ℕ} {sent : List A} (l : Line X) (w : LockableWriter) (x : A)
        (written pending : List A)
        → Kept l.selector
        → IsAlive l.boxes
        → Holding (outbox_for id l.boxes) pending
        → w.written ≡ (if b then stream entry written ++ (entry x).1 else stream entry written)
        → Drops n ((written ++ x ∷ []) ++ pending) sent
        → Flowing Kept
            ((if b then 0 else 1) + n)
            sent
            (record { selector = l.selector; boxes = l.boxes; flight = none; writer = w })
    finished_with true {n} {sent} l w x written pending k v h e d = record {
      written = written ++ x ∷ [];
      taken_off = none;
      pending = pending;
      kept = k;
      alive = v;
      bytes = e ∙ sym (stream-snoc id deliver for_id entry written x);
      in_flight = refl;
      holds = h;
      lost =
          subst (λ m. Drops m (((written ++ x ∷ []) ++ []) ++ pending) sent) (omega arith)
            (subst (λ u. Drops n (u ++ pending) sent) (sym (append-nil (written ++ x ∷ []))) d);
    }
    finished_with false {n} {sent} l w x written pending k v h e d = record {
      written = written;
      taken_off = none;
      pending = pending;
      kept = k;
      alive = v;
      bytes = e;
      in_flight = refl;
      holds = h;
      lost =
          subst (λ m. Drops m ((written ++ []) ++ pending) sent) (omega arith)
            (subst (λ u. Drops (suc n) (u ++ pending) sent) (sym (append-nil written))
              (lose written x pending
                (subst (λ u. Drops n u sent) (append_assoc written (x ∷ []) pending) d)));
    }

    after_finish :
        (att : Attempt) {n : ℕ} {sent : List A} (l : Line X)
        → Calm att
        → Flowing Kept n sent l
        → Flowing Kept (lost_in id deliver for_id (finishes att) l + n) sent (finish_item id att l)
    unfolding finish_item
    after_finish att {n} {sent} l c f = ends f.taken_off f.in_flight f.lost
      where
        rest : Item → Line X
        rest item = record {
          selector = l.selector;
          boxes = l.boxes;
          flight = none;
          writer = (send_once att item l.writer).1;
        }

        over : Item → Line X
        over item =
            if goes_on (send_once att item l.writer).0
            then rest item
            else put id (record (outbox_for id l.boxes) { finished = true }) (rest item)

        lost_of : Option Item → ℕ
        lost_of t = elim t [ none ↦ 0 | some item ↦ if writes att item then 0 else 1 ]

        line_of : Option Item → Line X
        line_of t = elim t [ none ↦ l | some item ↦ over item ]

        ends :
            (t : Option A)
            → l.flight ≡ flight_of id deliver for_id entry t
            → Drops n ((f.written ++ as_list t) ++ f.pending) sent
            → Flowing Kept
                (lost_in id deliver for_id (finishes att) l + n)
                sent
                (finish_item id att l)
        ends none i d =
            subst (λ m. Flowing Kept m sent (finish_item id att l)) (omega (arith, ap lost_of i))
              (subst (Flowing Kept n sent) (sym (ap line_of i)) f)
        ends (some x) i d =
            let it = entry x in
            let calm : over it ≡ rest it =
              ap
                (λ b.
                  if b
                  then rest it
                  else put id (record (outbox_for id l.boxes) { finished = true }) (rest it))
                (send_once-goes_on att it l.writer c) in
            subst (λ m. Flowing Kept (m + n) sent (finish_item id att l)) (sym (ap lost_of i))
              (subst (Flowing Kept ((if writes att it then 0 else 1) + n) sent)
                (sym (ap line_of i ∙ calm))
                (finished_with (writes att it) l (send_once att it l.writer).1 x f.written f.pending
                  f.kept f.alive f.holds
                  (send_once_written att it l.writer
                    ∙ ap (λ u. if writes att it then u ++ it.1 else u) f.bytes)
                  d))

    -- A schedule from there on.
    pub after_schedule :
        (es : List (Event A)) {n : ℕ} {sent : List A} (l : Line X)
        → All (Delivering Kept) (sent_in es)
        → IsCalm es
        → Flowing Kept n sent l
        → Flowing Kept
            (losses id deliver for_id es l + n)
            (sent ++ chosen for_id (sent_in es))
            (run_line id deliver es l)
    unfolding run_line losses step
    after_schedule [] {n} {sent} l d c f =
        subst (λ m. Flowing Kept m (sent ++ []) l) (omega arith)
          (subst (λ u. Flowing Kept n u l) (sym (append-nil sent)) f)
    after_schedule (sends a ∷ es) {n} {sent} l d c f =
        subst
          (λ u.
            Flowing Kept (losses id deliver for_id (sends a ∷ es) l + n) u
              (run_line id deliver (sends a ∷ es) l))
          (sym (chosen-snoc for_id a sent (sent_in es)))
          (subst
            (λ m.
              Flowing Kept m
                ((if for_id a then sent ++ a ∷ [] else sent) ++ chosen for_id (sent_in es))
                (run_line id deliver (sends a ∷ es) l))
            (omega arith) (after_schedule es (sent_on id deliver a l) d.1 c (after_send a l d.0 f)))
    after_schedule (takes ∷ es) {n} {sent} l d c f =
        subst
          (λ m.
            Flowing Kept m (sent ++ chosen for_id (sent_in es))
              (run_line id deliver (takes ∷ es) l))
          (omega arith) (after_schedule es (take_item id l) d c (after_take l f))
    after_schedule (finishes att ∷ es) {n} {sent} l d c f =
        subst
          (λ m.
            Flowing Kept m (sent ++ chosen for_id (sent_in es))
              (run_line id deliver (finishes att ∷ es) l))
          (omega arith) (after_schedule es (finish_item id att l) d c.1 (after_finish att l c.0 f))

    pub Flows-waiting :
        {n : ℕ} {sent : List A} (l : Line X) (f : Flowing Kept n sent l)
        → waiting id l ≡ length (as_list f.taken_off ++ f.pending)
    Flows-waiting l f =
        ap (λ q. elim l.flight [ none ↦ length q | some _ ↦ 1 + length q ]) f.holds.queued
        ∙ ap
            (λ t. elim t [
              | none ↦ length (map entry f.pending)
              | some _ ↦ 1 + length (map entry f.pending)
            ])
            f.in_flight
        ∙ elim f.taken_off
            as (λ t.
              (elim (flight_of id deliver for_id entry t) [
                | none ↦ length (map entry f.pending)
                | some _ ↦ 1 + length (map entry f.pending)
              ])
              ≡ length (as_list t ++ f.pending)) [
                | none ↦ length-map entry f.pending
                | some _ ↦ omega (arith, length-map entry f.pending)
              ]
