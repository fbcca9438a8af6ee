-- ===== src/Topic/Outbox/Laws.antt =====
-- The outbox is a bounded queue that drops its oldest entries, and sends no entry after its
-- deadline.
use rosy.Base.{
  length-map, drop-map, All, All-drop, ℕ, suc, ◌+◌, ◌-◌, ◌≤◌, ◌<◌, ◌≡◌, refl, sym, ap, ◌∙◌, subst,
  true, false, List, [], ◌∷◌, ◌++◌, length, length-append, length-drop, drop, drop_eq, drop-append,
  drop-drop, leb, if◌then◌else◌, arith, Bool-cases, inl, inr, ◌⊎◌, map, append_assoc, append-nil,
}
use rosy.Base.Exec.{ok, err, runtime_error}
use rosy.Stream.{Bytes, LockableWriter}
use rosy.Topic.Outbox.{Item, Outbox, full, drop_oldest, send, Attempt, send_once}

pub record IsValid (o : Outbox) : Type 0 where
  pub bounded : length o.queue ≤ o.maxsize
  pub positive : 0 < o.maxsize

-- The entries of `sends`, each a time and the bytes, as the queue holds them.
abbrev pub entries : ℕ → List (ℕ × Bytes) → List Item
entries ttl sends = map (λ s. (s.0 + ttl, s.1)) sends

unfoldable pub send_all : List (ℕ × Bytes) → Outbox → Outbox
send_all [] o = o
send_all ((now, bytes) ∷ sends) o = send_all sends (send now bytes o).1

-- The last `n` of a list.
abbrev pub last_of {ℓ} : {A : Type ℓ} → ℕ → List A → List A
last_of n xs = drop (length xs - n) xs

module _ {ℓ} {A : Type ℓ} where
  -- Keeping the last `n` at every step keeps the last `n` at the end.
  last_of-append : (n : ℕ) (xs ys : List A) → last_of n (last_of n xs ++ ys) ≡ last_of n (xs ++ ys)
  last_of-append n xs ys =
      let cut = length xs - n in
      let joined : drop cut (xs ++ ys) ≡ drop cut xs ++ ys = drop-append cut xs ys (omega arith) in
      let l = length (drop cut xs ++ ys) - n in
      ap (drop l) (sym joined)
      ∙ drop-drop l cut (xs ++ ys)
      ∙ ap (λ k. drop k (xs ++ ys))
          (omega (arith, length-append (drop cut xs) ys, length-append xs ys, length-drop cut xs))

-- Dropping the oldest entry where the queue is full keeps the last `m` of what comes out.
kept :
    (m : ℕ) (q : List Item) (x : Item)
    → 0 < m
    → length q ≤ m
    → (if leb m (length q) then drop_oldest q else q) ++ x ∷ [] ≡ last_of m (q ++ x ∷ [])
kept m [] x p h =
    let not_full : leb m 0 ≡ false = ground arith in
    rw not_full (drop_eq 0 (length (x ∷ []) - m) (x ∷ []) (omega arith))
kept m (y ∷ q) x p h =
    let all = length (y ∷ (q ++ x ∷ [])) - m in
    elim (Bool-cases (leb m (suc (length q)))) [
      | inl e ↦
          rw e
            (drop_eq 1 all (y ∷ (q ++ x ∷ [])) (omega (arith, length-append q (x ∷ []), is_full e)))
      | inr e ↦
          rw e
            (drop_eq 0 all (y ∷ (q ++ x ∷ [])) (omega (arith, length-append q (x ∷ []), small e)))
    ]
  where
    is_full : leb m (suc (length q)) ≡ true → m ≡ suc (length q)
    is_full e = ground arith

    small : leb m (suc (length q)) ≡ false → suc (length q) < m
    small e = ground arith

module _ (now : ℕ) (bytes : Bytes) (o : Outbox) (v : IsValid o) (runs : o.finished ≡ false) where
  abbrev sent : Outbox
  sent = record o { queue = last_of o.maxsize (o.queue ++ (now + o.ttl, bytes) ∷ []) }

  full_test : full o ≡ leb o.maxsize (length o.queue)
  full_test = ground (arith, v.positive)

  -- A send to a running outbox appends the entry with its deadline, and keeps the last `maxsize`.
  pub send-eq-sent : send now bytes o ≡ (ok tt, sent)
  unfolding send
  send-eq-sent =
      ground (arith, full_test, kept o.maxsize o.queue (now + o.ttl, bytes) v.positive v.bounded)

  sent-IsValid : IsValid sent
  sent-IsValid = record {
    bounded = omega (
      arith,
      length-drop (length (o.queue ++ (now + o.ttl, bytes) ∷ []) - o.maxsize)
          (o.queue ++ (now + o.ttl, bytes) ∷ []),
    );
    positive = v.positive;
  }

-- A send to an outbox whose task has ended raises, and changes nothing.
pub send_finished :
    (now : ℕ) (bytes : Bytes) (o : Outbox)
    → o.finished ≡ true
    → send now bytes o ≡ (err runtime_error, o)
unfolding send
send_finished now bytes o h = rw h refl

length-append_items : (xs ys : List Item) → length (xs ++ ys) ≡ length xs + length ys
length-append_items = length-append

-- After any sends to a valid outbox whose task runs, the outbox is valid and its queue is the last
-- `maxsize` of all entries, in the order of the sends.
pub send_all-queue :
    (sends : List (ℕ × Bytes)) (o : Outbox)
    → IsValid o
    → o.finished ≡ false
    → ((send_all sends o).queue ≡ last_of o.maxsize (o.queue ++ entries o.ttl sends))
      × IsValid (send_all sends o)
unfolding send_all
send_all-queue [] o v runs = (
  sym (append-nil o.queue)
      ∙ drop_eq 0 (length (o.queue ++ []) - o.maxsize) (o.queue ++ [])
          (omega (arith, length-append_items o.queue [], v.bounded)),
  v,
)
send_all-queue ((now, bytes) ∷ sends) o v runs =
    let x : Item = (now + o.ttl, bytes) in
    let next = sent now bytes o v runs in
    let (queue, valid) = send_all-queue sends next (sent-IsValid now bytes o v runs) runs in
    let step : send_all ((now, bytes) ∷ sends) o ≡ send_all sends next =
      ap (λ r. send_all sends r.1) (send-eq-sent now bytes o v runs) in
    (
      ap (λ p. p.queue) step
          ∙ queue
          ∙ last_of-append o.maxsize (o.queue ++ x ∷ []) (entries o.ttl sends)
          ∙ ap (last_of o.maxsize) (append_assoc o.queue (x ∷ []) (entries o.ttl sends)),
      subst IsValid (sym step) valid,
    )

-- What an attempt does with an entry when nothing fails.
module _ (a : Attempt) (deadline : ℕ) (bytes : Bytes) (w : LockableWriter) where
  -- An entry that has expired before the attempt, or by the time the lock is held, writes nothing.
  pub send_once_expired :
      (deadline ≤ a.started) ⊎ (deadline ≤ a.locked_at)
      → (send_once a (deadline, bytes) w).1.written ≡ w.written
  unfolding send_once
  send_once_expired h = ground arith

  -- An entry in time on a connection is written whole, and the lock is free after it.
  pub send_once_in_time :
      a.started < deadline
      → a.locked_at < deadline
      → a.connected ≡ ok tt
      → (send_once a (deadline, bytes) w)
        ≡ (a.drained, record w { written = w.written ++ bytes; locked = false })
  unfolding send_once
  send_once_in_time h k conn = ground arith

pub last_of-map :
    {A B : Type 0} (f : A → B) (n : ℕ) (xs : List A) → last_of n (map f xs) ≡ map f (last_of n xs)
last_of-map f n xs =
    ap (λ l. drop (l - n) (map f xs)) (length-map f xs) ∙ drop-map f (length xs - n) xs

pub All-last_of :
    {A : Type 0} (P : A → Type 0) (n : ℕ) (xs : List A) → All P xs → All P (last_of n xs)
All-last_of P n xs h = All-drop P (length xs - n) xs h
