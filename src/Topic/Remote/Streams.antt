-- ===== src/Topic/Remote/Streams.antt =====
-- The messages of a schedule that are for a node, the bytes of their entries, and what an attempt
-- does with one.
use rosy.Base.{
  ℕ, suc, ◌+◌, ◌≡◌, ◌≢◌, refl, sym, Bool, true, false, Option, none, some, List, [], ◌∷◌, ◌++◌, All,
  arith, append_assoc, if◌then◌else◌,
}
use rosy.Base.Exec.{err, interrupt}
use rosy.Stream.{Bytes, LockableWriter}
use rosy.Topic.Outbox.{Item, Attempt, send_once, goes_on}
use rosy.Topic.Remote.Schedule.{Event, sends, takes, finishes, writes}

-- No attempt is ended by an exception of `ALLOWED_EXCEPTIONS`.
abbrev pub Calm : Attempt → Type 0
Calm a = (a.connected ≢ err interrupt) × (a.drained ≢ err interrupt)

abbrev pub IsCalm : {A : Type 0} → List (Event A) → Type 0
IsCalm [] = Unit
IsCalm (finishes a ∷ es) = Calm a × IsCalm es
IsCalm (sends _ ∷ es) = IsCalm es
IsCalm (takes ∷ es) = IsCalm es

module _ (a : Attempt) (item : Item) (w : LockableWriter) where
  pub send_once_written :
      (send_once a item w).1.written ≡ (if writes a item then w.written ++ item.1 else w.written)
  unfolding send_once
  send_once_written = ground arith

  pub send_once-goes_on : Calm a → goes_on (send_once a item w).0 ≡ true
  unfolding send_once goes_on
  send_once-goes_on (c, d) = ground (arith, c, d)

pub counted : (b : Bool) (n : ℕ) → (if b then suc n else n) ≡ (if b then 1 else 0) + n
counted true n = omega arith
counted false n = omega arith

-- The messages that are for the node.
abbrev pub chosen : {A : Type 0} → (A → Bool) → List A → List A
chosen for_id [] = []
chosen for_id (a ∷ as_) = if for_id a then a ∷ chosen for_id as_ else chosen for_id as_

pub chosen-snoc :
    {A : Type 0} (for_id : A → Bool) (a : A) (xs ys : List A)
    → xs ++ chosen for_id (a ∷ ys) ≡ (if for_id a then xs ++ a ∷ [] else xs) ++ chosen for_id ys
chosen-snoc for_id a xs ys =
    elim (for_id a)
      as (λ b.
        xs ++ (if b then a ∷ chosen for_id ys else chosen for_id ys)
        ≡ (if b then xs ++ a ∷ [] else xs) ++ chosen for_id ys) [
          | true ↦ sym (append_assoc xs (a ∷ []) (chosen for_id ys))
          | false ↦ refl
        ]

abbrev pub as_list : {A : Type 0} → Option A → List A
as_list none = []
as_list (some a) = a ∷ []

-- The bytes of the entries.
abbrev pub stream : {A : Type 0} → (A → Item) → List A → Bytes
stream entry [] = []
stream entry (a ∷ as_) = (entry a).1 ++ stream entry as_

pub All-chosen :
    {A : Type 0} (P : A → Type 0) (for_id : A → Bool) (as_ : List A)
    → All P as_
    → All P (chosen for_id as_)
All-chosen P for_id [] h = tt
All-chosen P for_id (a ∷ as_) h =
    elim (for_id a) as (λ b. All P (if b then a ∷ chosen for_id as_ else chosen for_id as_)) [
      | true ↦ (h.0, All-chosen P for_id as_ h.1)
      | false ↦ All-chosen P for_id as_ h.1
    ]
