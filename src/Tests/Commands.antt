-- ===== src/Tests/Commands.antt =====
-- The commands and the process manager at concrete inputs.
use rosy.Base.{
  All, ℕ, ◌≡◌, refl, length, [], ◌∷◌, true, false, none, some, inl, arith, if◌then◌else◌, ◌==◌, leb,
}
use rosy.Base.Exec.{ok, err, timeout_error, interrupt}
use rosy.Procman.{System, ProcessManager, terminates, waits, kills, stop, wait}
use rosy.Procman.Laws.{IsOrderly, stop_all, wait_stops_at}
use rosy.Cli.Args.{Python, key_match, value_from_str, parse_args_and_kwargs}
use rosy.Cli.Args.Laws.{parse_args_and_kwargs-rendered}
use rosy.Cli.Launch.{Platform, Config, NodeConfig, words, start_nodes, launch_main}
use rosy.Cli.Launch.Accounts.{Accounted, begun, launch_main-Accounted}
use rosy.Cli.Launch.Laws.{new_manager, with_started, requests, start_nodes-requests}

-- Process 2 does not end in time.
abbrev system : System
system = record {
  terminated = λ p. ok tt;
  waited = λ p t. if p == 2 then err timeout_error else ok tt;
  killed = λ p. ok tt;
  waited_killed = λ p t. ok tt;
  waited_on = λ p t. if p == 2 then err timeout_error else ok tt;
}

system-IsOrderly : IsOrderly system
system-IsOrderly = record {
  signals = λ p. refl;
  kills = λ p. refl;
  ends = λ p t. ground arith;
  ends_killed = λ p t. inl refl;
}

abbrev two_processes : ProcessManager ℕ
two_processes = record { processes = 1 ∷ 2 ∷ []; options = []; timeout = some 10; calls = [] }

stop_all_example : stop system none none two_processes ≡ (
  ok tt,
  record two_processes {
    processes = [];
    calls =
        terminates 1
        ∷ terminates 2
        ∷ waits 1 (some 10)
        ∷ waits 2 (some 10)
        ∷ kills 2
        ∷ waits 2 (some 10)
        ∷ [];
  },
)
stop_all_example = stop_all system system-IsOrderly none two_processes

wait_example : wait system (some 3) two_processes ≡ (
  err timeout_error,
  record two_processes { processes = 2 ∷ []; calls = waits 1 (some 3) ∷ waits 2 (some 3) ∷ [] },
)
wait_example =
    wait_stops_at system (some 3) (1 ∷ []) [] 2 timeout_error two_processes refl (refl, tt) refl

abbrev python : Python ℕ
python = record {
  is_word = λ c. if leb b'0' c then (if c == b'=' then false else true) else false;
  literal_eval = λ t. ok (length t);
  import_and_call = λ m n a. ok 0;
}

forty_two :
    (key_match python.is_word (b'4' ∷ b'2' ∷ []) ≡ none)
    × (value_from_str python (b'4' ∷ b'2' ∷ []) ≡ ok 2)
unfolding key_match value_from_str
forty_two = (refl, refl)

seven : value_from_str python (b'7' ∷ []) ≡ ok 1
unfolding value_from_str
seven = refl

parse_example :
    parse_args_and_kwargs python ((b'4' ∷ b'2' ∷ []) ∷ (b'n' ∷ b'=' ∷ b'7' ∷ []) ∷ [])
    ≡ ok (2 ∷ [], (b'n' ∷ [], 1) ∷ [])
parse_example =
    parse_args_and_kwargs-rendered python refl ((b'4' ∷ b'2' ∷ [], 2) ∷ [])
      ((b'n' ∷ [], b'7' ∷ [], 1) ∷ []) (forty_two, tt) (((refl, tt), (refl, tt), seven), tt)

-- Each process is the number of those before it; the wait for process 1 is interrupted.
abbrev platform : Platform
platform = record {
  system = record system { waited_on = λ p t. if p == 1 then err interrupt else ok tt };
  sleep = λ d. ok tt;
  spawn = λ ps c options. ok (length ps);
  environ = [];
  hostname = [];
}

abbrev twice : NodeConfig
twice = record {
  disabled = false;
  on_host = none;
  pre_delay = 0;
  command = some (words ((b'x' ∷ []) ∷ []));
  shell = none;
  number = some 2;
  post_delay = 0;
}

abbrev config : Config
config = record { domain_id = none; nodes = (b'n' ∷ [], twice) ∷ [] }

left_behind_example :
    ((launch_main platform config []).1.processes ≡ [])
    × All
        (Accounted platform (launch_main platform config []).1)
        (begun platform config []).1.processes
left_behind_example = launch_main-Accounted platform config [] (record {
  signals = λ p. refl;
  kills = λ p. refl;
  ends = λ p t. ground arith;
  ends_killed = λ p t. inl refl;
})

start_nodes_example :
    start_nodes platform [] [] config.nodes new_manager
    ≡ (ok tt, with_started platform (requests platform [] [] config.nodes) new_manager)
start_nodes_example =
    start_nodes-requests platform
      (record { sleeps = λ d. refl; spawns = λ ps c options. (length ps, refl) }) [] [] config.nodes
      new_manager ((words ((b'x' ∷ []) ∷ []), refl), tt)
