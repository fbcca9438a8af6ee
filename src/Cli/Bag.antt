-- ===== src/Cli/Bag.antt =====
-- src/rosy/cli/bag/: messages recorded to a file, played back, and counted. An instant is a number
-- of microseconds. `pickle` is a parameter.
pub mod Size
pub mod Laws
pub mod Play
pub mod Info
use rosy.Base.{
  ℕ, zero, suc, ◌+◌, Bool, true, false, Option, none, some, List, [], ◌∷◌, ◌++◌, ◌==◌,
  if◌then◌else◌, length,
}
use rosy.Base.Text.{Text, Text-discrete}
use rosy.Base.Dict.{Dict, get, set}
use rosy.Base.Exec.{Error, Exec, Result, ok, err, after, modify, value_error}
use rosy.Message.{Args, Kwargs}
use rosy.Stream.{Bytes}
use rosy.Cli.Bag.Size.{SizeUnit, get_human_readable_size}

-- `Message` of file.py.
pub record BagMessage (Data : Type 0) : Type 0 where
  pub instant : ℕ
  pub topic : Text
  pub args : Args Data
  pub kwargs : Kwargs Data

-- What `pickle.load` does: an object, an `EOFError`, or another exception.
pub data Loaded (Data : Type 0) : Type 0 where
  loaded : BagMessage Data → Loaded Data
  end_of_file : Loaded Data
  raised : Error → Loaded Data

-- `dump` gives the bytes that it writes, also where it raises; `load` gives the rest of the file.
pub record Pickle (Data : Type 0) : Type 0 where
  pub dump : BagMessage Data → Result (Unit {0}) × Bytes
  pub load : Bytes → Loaded Data × Bytes

-- The file that is written, and `message_counter`.
pub record Recording : Type 0 where
  pub bag_file : Bytes
  pub message_counter : ℕ

-- What a playback does: it waits until the time of `instant`, where the message of `first` went out
-- at the start, or it sends a message.
pub data Event (Data : Type 0) : Type 0 where
  waits : (first instant : ℕ) → Event Data
  sends : BagMessage Data → Event Data

pub record BagInfo : Type 0 where
  pub start : Option ℕ
  pub end_time : Option ℕ
  pub size : ℕ
  pub size_unit : SizeUnit
  pub messages : ℕ
  pub topics : Dict Text ℕ

-- `topics[topic] += 1` of a `Counter`.
unfoldable pub count_topic : Text → Dict Text ℕ → Dict Text ℕ
count_topic topic topics = elim (get Text-discrete topic topics) [
  | none ↦ set Text-discrete topic 1 topics
  | some n ↦ set Text-discrete topic (suc n) topics
]

module _ {Data : Type 0} (pickle : Pickle Data) where
  -- The messages that the generator yields, and how it ends; `none` where the fuel runs out.
  unfoldable pub get_bag_file_messages :
      ℕ → Bytes → List (BagMessage Data) × Option (Result (Unit {0}))
  get_bag_file_messages zero bag_file = ([], none)
  get_bag_file_messages (suc fuel) bag_file =
      let (object, rest) = pickle.load bag_file in
      elim object [
        | loaded message ↦
            let (messages, ended) = get_bag_file_messages fuel rest in (message ∷ messages, ended)
        | end_of_file ↦ ([], some (ok tt))
        | raised e ↦ ([], some (err e))
      ]

  -- `callback`, for the message that it makes with the time of the call.
  unfoldable pub callback : BagMessage Data → Exec Recording (Unit {0})
  callback message r =
      let (dumped, bytes) = pickle.dump message in
      after (dumped, record r { bag_file = r.bag_file ++ bytes })
        (λ _. modify (λ s. record s { message_counter = suc s.message_counter }))

  -- The messages that come in, one after the other; what a callback raises is logged by the handler
  -- of topic messages.
  unfoldable pub record_each : List (BagMessage Data) → Recording → Recording
  unfolding callback
  record_each [] r = r
  record_each (message ∷ messages) r = record_each messages (callback message r).1

  -- `_record_main`: the result, and the file that is left. `ran` is what `listen` and `forever()`
  -- raise, but for the `CancelledError` that ends the recording.
  unfoldable pub record_main :
      Result (Unit {0}) → List (BagMessage Data) → Result (Unit {0}) × Option Bytes
  unfolding record_each
  record_main ran messages =
      let r = record_each messages (record { bag_file = []; message_counter = 0 }) in
      let kept : Option Bytes = if r.message_counter == 0 then none else some r.bag_file in
      elim ran [ ok _ ↦ (ok tt, kept) | err e ↦ (err e, some r.bag_file) ]

-- One round of the loop of `get_info`; `not start_time` is a test for None.
unfoldable pub tally_one : {Data : Type 0} → BagMessage Data → BagInfo → BagInfo
unfolding count_topic
tally_one message info = record info {
  start = elim info.start [ none ↦ some message.instant | some t ↦ some t ];
  end_time = some message.instant;
  messages = suc info.messages;
  topics = count_topic message.topic info.topics;
}

unfoldable pub tally : {Data : Type 0} → List (BagMessage Data) → BagInfo → BagInfo
tally [] info = info
tally (message ∷ messages) info = tally messages (tally_one message info)

abbrev pub new_info : ℕ × SizeUnit → BagInfo
new_info size = record {
  start = none;
  end_time = none;
  size = size.0;
  size_unit = size.1;
  messages = 0;
  topics = [];
}

-- `get_info`, for a file of these bytes.
unfoldable pub get_info : {Data : Type 0} → Pickle Data → ℕ → Bytes → Option (Result BagInfo)
get_info pickle fuel bag_file =
    let (messages, ended) = get_bag_file_messages pickle fuel bag_file in
    let info = tally messages (new_info (get_human_readable_size (length bag_file))) in
    elim ended [ none ↦ none | some (ok _) ↦ some (ok info) | some (err e) ↦ some (err e) ]

-- `immediate` and whether the rate is greater than 0 come from the command line; `send` is what
-- `node.send` gives.
module _ {Data : Type 0} (immediate rate_positive : Bool)
    (send : BagMessage Data → Result (Unit {0})) where
  -- What comes before a message is sent: the instant of the first message stays as it is.
  unfoldable pub pace : Option ℕ → BagMessage Data → Exec (List (Event Data)) ℕ
  pace none message events = (ok message.instant, events)
  pace (some first) message events =
      let waited : Result ℕ × List (Event Data) =
        (ok first, events ++ waits first message.instant ∷ []) in
      if immediate
      then (ok first, events)
      else if rate_positive
      then waited
      else (err value_error, events)

  -- The loop of `_play_main` over the messages; an exception ends it.
  unfoldable pub play_each : Option ℕ → List (BagMessage Data) → Exec (List (Event Data)) (Unit {0})
  unfolding pace
  play_each first [] events = (ok tt, events)
  play_each first (message ∷ messages) events = after (pace first message events) (λ first' events'.
      after (send message, events' ++ sends message ∷ []) (λ _. play_each (some first') messages))

  -- `_play_main`; the generator's exception comes behind the messages that it yielded.
  unfoldable pub play_main :
      Pickle Data → ℕ → Bytes → Option (Result (Unit {0}) × List (Event Data))
  play_main pickle fuel bag_file =
      let (messages, ended) = get_bag_file_messages pickle fuel bag_file in
      elim ended [
        | none ↦ none
        | some r ↦ some (after (play_each none messages []) (λ _ events. (r, events)))
      ]
