-- ===== src/Cli/Bag/Info.antt =====
-- The numbers of a file's messages.
use rosy.Base.{
  ℕ, suc, ◌+◌, ◌≡◌, refl, ap, ◌∙◌, Option, none, some, List, [], ◌∷◌, holds, if◌then◌else◌, length,
  arith,
}
use rosy.Base.Text.{Text, Text-discrete}
use rosy.Base.Dict.{Dict, get, set}
use rosy.Base.Dict.Laws.{get-set}
use rosy.Cli.Bag.{
  BagMessage, BagInfo, count_topic, tally_one, tally, new_info, Pickle, get_info,
  get_bag_file_messages,
}
use rosy.Cli.Bag.Size.{SizeUnit, get_human_readable_size}
use rosy.Base.Exec.{Result, ok, err}
use rosy.Stream.{Bytes}

-- The count of a topic; a topic that is missing has none.
abbrev pub or_zero : Option ℕ → ℕ
or_zero none = 0
or_zero (some n) = n

-- `topics[topic]` of a `Counter`.
abbrev pub count_in : Text → Dict Text ℕ → ℕ
count_in topic topics = or_zero (get Text-discrete topic topics)

abbrev pub total : Dict Text ℕ → ℕ
total [] = 0
total ((_, n) ∷ topics) = n + total topics

abbrev pub or_else : Option ℕ → Option ℕ → Option ℕ
or_else none other = other
or_else (some t) other = some t

module _ {Data : Type 0} where
  -- The number of messages with the topic.
  abbrev pub messages_of : Text → List (BagMessage Data) → ℕ
  messages_of topic [] = 0
  messages_of topic (message ∷ messages) =
      (if holds (Text-discrete topic message.topic) then 1 else 0) + messages_of topic messages

  abbrev pub first_instant : List (BagMessage Data) → Option ℕ
  first_instant [] = none
  first_instant (message ∷ _) = some message.instant

  abbrev pub last_instant : List (BagMessage Data) → Option ℕ
  last_instant [] = none
  last_instant (message ∷ messages) = or_else (last_instant messages) (some message.instant)

or_else-some :
    (o : Option ℕ) (t : ℕ) (other : Option ℕ)
    → or_else o (some t) ≡ or_else (or_else o (some t)) other
or_else-some none t other = refl
or_else-some (some s) t other = refl

or_else-none : (o : Option ℕ) → or_else o none ≡ o
or_else-none none = refl
or_else-none (some t) = refl

count_topic_lem :
    (topic : Text) (topics : Dict Text ℕ)
    → count_topic topic topics ≡ set Text-discrete topic (suc (count_in topic topics)) topics
unfolding count_topic
count_topic_lem topic topics = ground arith

count_in-count_topic :
    (t topic : Text) (topics : Dict Text ℕ)
    → count_in t (count_topic topic topics)
      ≡ (if holds (Text-discrete t topic) then 1 else 0) + count_in t topics
count_in-count_topic t topic topics =
    let n = suc (count_in topic topics) in
    rw (count_topic_lem topic topics, get-set Text-discrete t topic n topics)
      (elim (Text-discrete t topic)
        as (λ d.
          or_zero (if holds d then some n else get Text-discrete t topics)
          ≡ (if holds d then 1 else 0) + count_in t topics) [
            | yes e ↦ rw e (omega arith)
            | no _ ↦ omega arith
          ])

total-set :
    (topic : Text) (n : ℕ) (topics : Dict Text ℕ)
    → total (set Text-discrete topic n topics) + count_in topic topics ≡ n + total topics
total-set topic n [] = omega arith
total-set topic n ((j, m) ∷ topics) = ground (arith, total-set topic n topics)

total-count_topic :
    (topic : Text) (topics : Dict Text ℕ) → total (count_topic topic topics) ≡ suc (total topics)
total-count_topic topic topics =
    rw (count_topic_lem topic topics)
      (omega (arith, total-set topic (suc (count_in topic topics)) topics))

module _ {Data : Type 0} where
  tally-start :
      (ms : List (BagMessage Data)) (info : BagInfo)
      → (tally ms info).start ≡ or_else info.start (first_instant ms)
  unfolding tally tally_one
  tally-start [] info = ground arith
  tally-start (m ∷ ms) info = ground (arith, tally-start ms (tally_one m info))

  tally-end_time :
      (ms : List (BagMessage Data)) (info : BagInfo)
      → (tally ms info).end_time ≡ or_else (last_instant ms) info.end_time
  unfolding tally tally_one
  tally-end_time [] info = refl
  tally-end_time (m ∷ ms) info =
      tally-end_time ms (tally_one m info) ∙ or_else-some (last_instant ms) m.instant info.end_time

  tally-messages :
      (ms : List (BagMessage Data)) (info : BagInfo)
      → (tally ms info).messages ≡ length ms + info.messages
  unfolding tally tally_one
  tally-messages [] info = omega arith
  tally-messages (m ∷ ms) info = omega (arith, tally-messages ms (tally_one m info))

  tally-count :
      (t : Text) (ms : List (BagMessage Data)) (info : BagInfo)
      → count_in t (tally ms info).topics ≡ messages_of t ms + count_in t info.topics
  unfolding tally tally_one
  tally-count t [] info = omega arith
  tally-count t (m ∷ ms) info =
      omega (arith, tally-count t ms (tally_one m info), count_in-count_topic t m.topic info.topics)

  tally-total :
      (ms : List (BagMessage Data)) (info : BagInfo)
      → total (tally ms info).topics ≡ length ms + total info.topics
  unfolding tally tally_one
  tally-total [] info = omega arith
  tally-total (m ∷ ms) info =
      omega (arith, tally-total ms (tally_one m info), total-count_topic m.topic info.topics)

  -- What a summary says of the messages: when the first and the last came, how many there are, and
  -- how many of each topic; the counts of the topics add up to the number of messages.
  pub record Summarizes (ms : List (BagMessage Data)) (info : BagInfo) : Type 0 where
    pub starts : info.start ≡ first_instant ms
    pub ends : info.end_time ≡ last_instant ms
    pub messages : info.messages ≡ length ms
    pub counts : (t : Text) → count_in t info.topics ≡ messages_of t ms
    pub totals : total info.topics ≡ length ms

  tally-Summarizes :
      (ms : List (BagMessage Data)) (size : ℕ × SizeUnit) → Summarizes ms (tally ms (new_info size))
  tally-Summarizes ms size = record {
    starts = tally-start ms (new_info size);
    ends = tally-end_time ms (new_info size) ∙ or_else-none (last_instant ms);
    messages = omega (arith, tally-messages ms (new_info size));
    counts = λ t. omega (arith, tally-count t ms (new_info size));
    totals = omega (arith, tally-total ms (new_info size));
  }

  -- The info on a file whose messages are read to the end has the instants of its first and last
  -- message, the number of its messages, and for each topic the number of its messages; these
  -- numbers add up to that of all messages.
  pub get_info-Summarizes :
      (pickle : Pickle Data) (fuel : ℕ) (bag_file : Bytes) (ms : List (BagMessage Data))
      → get_bag_file_messages pickle fuel bag_file ≡ (ms, some (ok tt))
      → (info : BagInfo) × ((get_info pickle fuel bag_file ≡ some (ok info)) × Summarizes ms info)
  unfolding get_info
  get_info-Summarizes pickle fuel bag_file ms e =
      let size = get_human_readable_size (length bag_file) in
      (
        tally ms (new_info size),
        (
          ap
              (λ x. elim x.1 as (λ _. Option (Result BagInfo)) [
                | none ↦ none
                | some (ok _) ↦ some (ok (tally x.0 (new_info size)))
                | some (err x') ↦ some (err x')
              ])
              e,
          tally-Summarizes ms size,
        ),
      )
