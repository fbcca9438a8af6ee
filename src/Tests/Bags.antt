-- ===== src/Tests/Bags.antt =====
-- Recording, playing and counting of messages at concrete inputs.
use rosy.Base.{ℕ, ◌≡◌, refl, sym, ap, List, [], ◌∷◌, ◌++◌, true, false, some, inl, inr, arith}
use rosy.Base.Text.{Text}
use rosy.Base.Exec.{Result, ok, err, foreign}
use rosy.Stream.{Bytes}
use rosy.Cli.Bag.{
  BagMessage, BagInfo, Pickle, Loaded, loaded, end_of_file, raised, get_bag_file_messages,
  record_main, play_main, get_info,
}
use rosy.Cli.Bag.Laws.{Loads, Holds, record_main-read}
use rosy.Cli.Bag.Play.{schedule, record_main-play_main}
use rosy.Cli.Bag.Info.{Summarizes, get_info-Summarizes}
use rosy.Cli.Bag.Size.{
  Fits, Close, get_human_readable_size, bytes_of, get_human_readable_size-Close,
}

-- A message of a topic of one character without arguments is dumped; any other raises.
abbrev dump_of : ℕ → Text → List (Unit {0}) → List (Text × Unit {0}) → Result (Unit {0}) × Bytes
dump_of instant (c ∷ []) [] [] = (ok tt, instant ∷ c ∷ [])
dump_of instant _ _ _ = (err foreign, [])

abbrev message : ℕ → ℕ → BagMessage (Unit {0})
message instant c = record { instant = instant; topic = c ∷ []; args = []; kwargs = [] }

abbrev load_from : Bytes → Loaded (Unit {0}) × Bytes
load_from [] = (end_of_file, [])
load_from (_ ∷ []) = (raised foreign, [])
load_from (instant ∷ c ∷ rest) = (loaded (message instant c), rest)

abbrev pickle : Pickle (Unit {0})
pickle = record { dump = λ m. dump_of m.instant m.topic m.args m.kwargs; load = load_from }

loads_lem :
    (instant : ℕ) (topic : Text) (args : List (Unit {0})) (kwargs : List (Text × Unit {0}))
    (bytes rest : Bytes)
    → dump_of instant topic args kwargs ≡ (ok tt, bytes)
    → load_from (bytes ++ rest)
      ≡ (loaded (record { instant = instant; topic = topic; args = args; kwargs = kwargs }), rest)
loads_lem instant (c ∷ []) [] [] bytes rest h = ap (λ x. load_from (x.1 ++ rest)) (sym h)
loads_lem instant [] args kwargs bytes rest h = absurd (ground (arith, h))
loads_lem instant (c ∷ []) [] (k ∷ kwargs) bytes rest h = absurd (ground (arith, h))
loads_lem instant (c ∷ []) (a ∷ args) kwargs bytes rest h = absurd (ground (arith, h))
loads_lem instant (c ∷ d ∷ topic) args kwargs bytes rest h = absurd (ground (arith, h))

pickle-Loads : Loads pickle
pickle-Loads = record {
  ends = refl;
  loads = λ m bytes rest h. loads_lem m.instant m.topic m.args m.kwargs bytes rest h;
}

-- Two messages that are dumped, and one between them that is not.
abbrev messages : List (BagMessage (Unit {0}))
messages =
    message 5 b'a'
    ∷ record { instant = 6; topic = []; args = []; kwargs = [] }
    ∷ message 8 b'b'
    ∷ []

record_main_example :
    ((record_main pickle (ok tt) messages).0 ≡ ok tt)
    × Holds pickle pickle-Loads
        (message 5 b'a' ∷ message 8 b'b' ∷ [])
        3
        (record_main pickle (ok tt) messages).1
record_main_example =
    record_main-read pickle pickle-Loads messages 3
      (inl (5 ∷ b'a' ∷ [], refl), (inr (foreign, refl), (inl (8 ∷ b'b' ∷ [], refl), tt)))
      (omega arith)

abbrev bag_file : Bytes
bag_file = 5 ∷ b'a' ∷ 8 ∷ b'b' ∷ []

recorded : (record_main pickle (ok tt) messages).1 ≡ some bag_file
unfolding record_main
recorded = refl

two_read :
    get_bag_file_messages pickle 3 bag_file ≡ (message 5 b'a' ∷ message 8 b'b' ∷ [], some (ok tt))
unfolding get_bag_file_messages
two_read = refl

played_example :
    play_main false true (λ m. ok tt) pickle 3 bag_file
    ≡ some (ok tt, schedule false (message 5 b'a' ∷ message 8 b'b' ∷ []))
played_example =
    record_main-play_main false true (λ m. ok tt) (inr refl) pickle pickle-Loads messages 3 bag_file
      (inl (5 ∷ b'a' ∷ [], refl), (inr (foreign, refl), (inl (8 ∷ b'b' ∷ [], refl), tt)))
      (omega arith) recorded (refl, (refl, tt))

get_info_example :
    (info : BagInfo) × ((get_info pickle 3 bag_file ≡ some (ok info))
      × Summarizes (message 5 b'a' ∷ message 8 b'b' ∷ []) info)
get_info_example =
    get_info-Summarizes pickle 3 bag_file (message 5 b'a' ∷ message 8 b'b' ∷ []) two_read

size_example :
    Fits 2560 (get_human_readable_size 2560).1
    × Close 2560 (get_human_readable_size 2560).0 (bytes_of (get_human_readable_size 2560).1)
size_example = get_human_readable_size-Close 2560 (omega arith)
