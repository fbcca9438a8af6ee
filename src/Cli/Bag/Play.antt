-- ===== src/Cli/Bag/Play.antt =====
-- A playback sends the messages of a file in their order.
use rosy.Base.{
  length, subst, ◌<◌, ℕ, ◌≡◌, refl, sym, ap, ◌∙◌, Bool, true, false, Option, none, some, List, [],
  ◌∷◌, ◌++◌, if◌then◌else◌, All, ◌⊎◌, inl, inr, append_assoc, append-nil,
}
use rosy.Base.Exec.{Result, ok, after}
use rosy.Stream.{Bytes}
use rosy.Cli.Bag.Laws.{Loads, Settles, kept, Holds, record_main-read}
use rosy.Cli.Bag.{
  BagMessage, record_main, Pickle, Event, waits, sends, get_bag_file_messages, pace, play_each,
  play_main,
}

-- Messages sent one after the other; between them, where the playback is not immediate, it waits.
module _ {Data : Type 0} (immediate : Bool) where
  abbrev pub pause : ℕ → BagMessage Data → List (Event Data)
  pause first message = if immediate then [] else waits first message.instant ∷ []

  abbrev pub schedule_after : ℕ → List (BagMessage Data) → List (Event Data)
  schedule_after first [] = []
  schedule_after first (message ∷ messages) =
      pause first message ++ sends message ∷ schedule_after first messages

  -- The first message goes out at once, and the others at their distance from it.
  abbrev pub schedule : List (BagMessage Data) → List (Event Data)
  schedule [] = []
  schedule (message ∷ messages) = sends message ∷ schedule_after message.instant messages

  pace_lem :
      (rate_positive : Bool) (send : BagMessage Data → Result (Unit {0}))
      → (immediate ≡ true) ⊎ (rate_positive ≡ true)
      → (first : ℕ) (m : BagMessage Data) (events : List (Event Data))
      → pace immediate rate_positive send (some first) m events
        ≡ (ok first, events ++ pause first m)
  unfolding pace
  pace_lem rate_positive send (inl e) first m events =
      rw (e, pace) (ap (λ l. (ok first, l)) (sym (append-nil events)))
  pace_lem rate_positive send (inr e) first m events =
      rw (e, pace)
        (elim immediate
          as (λ now.
            ◌≡◌ {A = Result ℕ × List (Event Data)}
              (if now then (ok first, events) else (ok first, events ++ waits first m.instant ∷ []))
              (ok first, events ++ (if now then [] else waits first m.instant ∷ []))) [
                | true ↦ ap (λ l. (ok first, l)) (sym (append-nil events))
                | false ↦ refl
              ])

  module _ (rate_positive : Bool) (send : BagMessage Data → Result (Unit {0}))
      (paced : (immediate ≡ true) ⊎ (rate_positive ≡ true)) where
    play_after_lem :
        (first : ℕ) (ms : List (BagMessage Data)) (events : List (Event Data))
        → All (λ m. send m ≡ ok tt) ms
        → play_each immediate rate_positive send (some first) ms events
          ≡ (ok tt, events ++ schedule_after first ms)
    unfolding play_each
    play_after_lem first [] events h = ap (λ l. (ok tt, l)) (sym (append-nil events))
    play_after_lem first (m ∷ ms) events h =
        rw (pace_lem rate_positive send paced first m events, h.0, play_each)
          (play_after_lem first ms ((events ++ pause first m) ++ sends m ∷ []) h.1
            ∙ ap (λ l. (ok tt, l))
                (append_assoc (events ++ pause first m) (sends m ∷ []) (schedule_after first ms)
                  ∙ append_assoc events (pause first m) (sends m ∷ schedule_after first ms)))

    play_none_lem :
        (ms : List (BagMessage Data))
        → All (λ m. send m ≡ ok tt) ms
        → play_each immediate rate_positive send none ms [] ≡ (ok tt, schedule ms)
    unfolding play_each pace
    play_none_lem [] h = refl
    play_none_lem (m ∷ ms) h = rw (h.0, play_each) (play_after_lem m.instant ms (sends m ∷ []) h.1)

    -- Where the playback is immediate or its rate is positive, and no send raises: the playback of
    -- a file whose messages are read to the end sends each of them once, in order, the first at
    -- once and each other, unless the playback is immediate, after a wait for its distance from the
    -- first.
    pub play_main-schedule :
        (pickle : Pickle Data) (fuel : ℕ) (bag_file : Bytes) (messages : List (BagMessage Data))
        → get_bag_file_messages pickle fuel bag_file ≡ (messages, some (ok tt))
        → All (λ m. send m ≡ ok tt) messages
        → play_main immediate rate_positive send pickle fuel bag_file
          ≡ some (ok tt, schedule messages)
    unfolding play_main
    play_main-schedule pickle fuel bag_file messages e h =
        ap
          (λ x. elim x.1 as (λ _. Option (Result (Unit {0}) × List (Event Data))) [
            | none ↦ none
            | some r ↦ some (
                after (play_each immediate rate_positive send none x.0 [])
                  (λ _ events. (r, events)))
          ])
          e
        ∙ rw (play_none_lem messages h) refl

    -- Where `load` takes back what `dump` wrote, a dump that raises writes nothing, and no send of
    -- the playback raises: the playback of a file that a recording left sends exactly the messages
    -- that were dumped, once and in the order in which they came, the first at once and each other,
    -- unless the playback is immediate, after a wait for its distance from the first. The playback
    -- is immediate or its rate is positive, and the fuel is more than the number of these messages.
    pub record_main-play_main :
        (pickle : Pickle Data) (laws : Loads pickle) (messages : List (BagMessage Data)) (fuel : ℕ)
        (bag_file : Bytes)
        → All (Settles pickle) messages
        → length (kept pickle messages) < fuel
        → (record_main pickle (ok tt) messages).1 ≡ some bag_file
        → All (λ m. send m ≡ ok tt) (kept pickle messages)
        → play_main immediate rate_positive send pickle fuel bag_file
          ≡ some (ok tt, schedule (kept pickle messages))
    record_main-play_main pickle laws messages fuel bag_file settles enough left sent =
        play_main-schedule pickle fuel bag_file (kept pickle messages)
          (subst (Holds pickle laws (kept pickle messages) fuel) left
            (record_main-read pickle laws messages fuel settles enough).1)
          sent
