-- ===== src/Cli/Bag/Laws.antt =====
-- What was recorded is read back.
use rosy.Base.{
  ℕ, zero, suc, ◌+◌, ◌<◌, ◌≡◌, refl, sym, ap, ◌∙◌, false, Option, none, some, List, [], ◌∷◌, ◌++◌,
  ◌==◌, if◌then◌else◌, length, subst, All, ◌⊎◌, inl, inr, arith, append_assoc, append-nil,
}
use rosy.Base.Exec.{Error, Result, ok, err}
use rosy.Stream.{Bytes}
use rosy.Cli.Bag.{
  BagMessage, Pickle, loaded, end_of_file, raised, Recording, get_bag_file_messages, callback,
  record_each, record_main,
}

add_zero_lem : (n : ℕ) → n ≡ n + 0
add_zero_lem n = omega arith

zero_add_lem : (n : ℕ) → 0 + n ≡ n
zero_add_lem n = omega arith

suc_add_lem : (m n : ℕ) → suc m + n ≡ m + suc n
suc_add_lem m n = omega arith

module _ {Data : Type 0} (pickle : Pickle Data) where
  -- A message that `pickle.dump` writes.
  abbrev pub Dumps : BagMessage Data → Type 0
  Dumps message = (bytes : Bytes) × (pickle.dump message ≡ (ok tt, bytes))

  -- A message is written, or the dump raises and has written nothing.
  abbrev pub Settles : BagMessage Data → Type 0
  Settles message = Dumps message ⊎ ((e : Error) × (pickle.dump message ≡ (err e, [])))

  -- `load` takes back what `dump` wrote, and an empty file has ended.
  pub record Loads : Type 0 where
    pub ends : pickle.load [] ≡ (end_of_file, [])
    pub loads :
        (message : BagMessage Data) (bytes rest : Bytes)
        → pickle.dump message ≡ (ok tt, bytes)
        → pickle.load (bytes ++ rest) ≡ (loaded message, rest)

  -- A dump that raises leaves its message out.
  abbrev kept_if :
      Result (Unit {0}) → BagMessage Data → List (BagMessage Data) → List (BagMessage Data)
  kept_if (ok _) message messages = message ∷ messages
  kept_if (err _) message messages = messages

  -- The messages whose dump raises nothing.
  abbrev pub kept : List (BagMessage Data) → List (BagMessage Data)
  kept [] = []
  kept (message ∷ messages) = kept_if (pickle.dump message).0 message (kept messages)

  -- The file that holds these messages.
  abbrev pub image : List (BagMessage Data) → Bytes
  image [] = []
  image (message ∷ messages) = (pickle.dump message).1 ++ image messages

  record_each_lem :
      (messages : List (BagMessage Data)) (r : Recording)
      → All Settles messages
      → record_each pickle messages r ≡ record {
        bag_file = r.bag_file ++ image (kept messages);
        message_counter = r.message_counter + length (kept messages);
      }
  unfolding record_each callback
  record_each_lem [] r h = λ i. record {
    bag_file = sym (append-nil r.bag_file) i;
    message_counter = add_zero_lem r.message_counter i;
  }
  record_each_lem (m ∷ ms) r h = elim (h.0) [
    | inl (bytes, e) ↦
        rw (e, kept_if, record_each)
          (record_each_lem ms
              (record { bag_file = r.bag_file ++ bytes; message_counter = suc r.message_counter })
              h.1
            ∙ (λ i. record {
              bag_file = append_assoc r.bag_file bytes (image (kept ms)) i;
              message_counter = suc_add_lem r.message_counter (length (kept ms)) i;
            })
            ∙ ap
                (λ x. record {
                  bag_file = r.bag_file ++ (x.1 ++ image (kept ms));
                  message_counter = r.message_counter + suc (length (kept ms));
                })
                (sym e))
    | inr (x, e) ↦
        rw (e, kept_if, record_each)
          (ap (record_each pickle ms) (λ i. record {
            bag_file = append-nil r.bag_file i;
            message_counter = r.message_counter;
          })
            ∙ record_each_lem ms r h.1)
  ]

  kept-Dumps :
      (messages : List (BagMessage Data)) → All Settles messages → All Dumps (kept messages)
  kept-Dumps [] h = tt
  kept-Dumps (m ∷ ms) h = elim (h.0) [
    | inl (bytes, e) ↦ rw (e, kept_if) ((bytes, e), kept-Dumps ms h.1)
    | inr (x, e) ↦ rw (e, kept_if) (kept-Dumps ms h.1)
  ]

  read_step :
      (fuel : ℕ) (file rest : Bytes) (m : BagMessage Data)
      → pickle.load file ≡ (loaded m, rest)
      → get_bag_file_messages pickle (suc fuel) file ≡ (
        m ∷ (get_bag_file_messages pickle fuel rest).0,
        (get_bag_file_messages pickle fuel rest).1,
      )
  unfolding get_bag_file_messages
  read_step fuel file rest m e =
      ap
        (λ x. elim x.0 as (λ _. List (BagMessage Data) × Option (Result (Unit {0}))) [
          | loaded message ↦
              let (ms, ended) = get_bag_file_messages pickle fuel x.1 in (message ∷ ms, ended)
          | end_of_file ↦ ([], some (ok tt))
          | raised x' ↦ ([], some (err x'))
        ])
        e

  module _ (laws : Loads) where
    read-image :
        (messages : List (BagMessage Data)) (fuel : ℕ)
        → All Dumps messages
        → length messages < fuel
        → get_bag_file_messages pickle fuel (image messages) ≡ (messages, some (ok tt))
    unfolding get_bag_file_messages
    read-image messages zero h f = absurd (omega arith)
    read-image [] (suc fuel) h f = rw (laws.ends, get_bag_file_messages) refl
    read-image (m ∷ ms) (suc fuel) h f =
        let (bytes, e) = h.0 in
        read_step fuel (image (m ∷ ms)) (image ms) m
          (ap (λ x. pickle.load (x.1 ++ image ms)) e ∙ laws.loads m bytes (image ms) e)
        ∙ ap (λ x. (m ∷ x.0, x.1)) (read-image ms fuel h.1 (omega arith))

    -- The files that a recording leaves: none if no message was kept, and otherwise one that the
    -- reader gives the kept messages of, in order, and then ends.
    abbrev pub Holds : List (BagMessage Data) → ℕ → Option Bytes → Type 0
    Holds messages fuel none = messages ≡ []
    Holds messages fuel (some bag_file) =
        get_bag_file_messages pickle fuel bag_file ≡ (messages, some (ok tt))

    holds_lem :
        (ks : List (BagMessage Data)) (fuel : ℕ)
        → All Dumps ks
        → length ks < fuel
        → Holds ks fuel (if length ks == 0 then none else some (image ks))
    holds_lem [] fuel h f = refl
    holds_lem (k ∷ ks) fuel h f =
        let e : (suc (length ks) == 0) ≡ false = ground arith in rw e (read-image (k ∷ ks) fuel h f)

    -- Where `load` takes back what `dump` wrote, and a dump that raises writes nothing: a recording
    -- that is ended by its cancellation raises nothing; it leaves no file if no message was dumped,
    -- and otherwise one from which, with fuel for each, exactly the messages that were dumped are
    -- read, in order, and then the end of the file.
    pub record_main-read :
        (messages : List (BagMessage Data)) (fuel : ℕ)
        → All Settles messages
        → length (kept messages) < fuel
        → ((record_main pickle (ok tt) messages).0 ≡ ok tt)
          × Holds (kept messages) fuel (record_main pickle (ok tt) messages).1
    unfolding record_main
    record_main-read messages fuel h f =
        let r : Recording = record { bag_file = []; message_counter = 0 } in
        (
          refl,
          subst
              (λ r'.
                Holds (kept messages) fuel
                  (if r'.message_counter == 0 then none else some r'.bag_file))
              (sym (record_each_lem messages r h))
              (rw (zero_add_lem (length (kept messages)))
                (holds_lem (kept messages) fuel (kept-Dumps messages h) f)),
        )
