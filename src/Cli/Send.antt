-- ===== src/Cli/Send.antt =====
-- The commands that send to a topic and call a service, src/rosy/cli/topic/send.py and
-- service/call.py. `W` is the state of the node and of all around it; printing is left out.
pub mod Laws
use rosy.Base.{Bool, true, false, Option, none, some, List, [], ◌∷◌, ◌≡◌, refl, if◌then◌else◌}
use rosy.Base.Text.{Text}
use rosy.Base.Exec.{Error, Exec, Result, ok, err, pure, lift, after, ◌>>=◌, ◌>>◌}
use rosy.Message.{Args, Kwargs}
use rosy.Cli.Args.{Python, parse_args_and_kwargs}

-- A `TopicProxy`, as the command uses it.
pub record Topic (Data W : Type 0) : Type 0 where
  pub has_listeners : Exec W Bool
  pub wait_for_listener : Exec W (Unit {0})
  pub send : Args Data → Kwargs Data → Exec W (Unit {0})

-- A `ServiceProxy`.
pub record Service (Data W : Type 0) : Type 0 where
  pub has_providers : Exec W Bool
  pub wait_for_provider : Exec W (Unit {0})
  pub call : Args Data → Kwargs Data → Exec W Data

-- `python` is what Python makes of a text at the time; `repeats` says that the interval is not
-- below 0. A run has a list of what happens during its sleeps, and gives `none` where it still goes
-- on.
module _ {Data W : Type 0} (python : W → Python Data) (no_wait : Bool) (args : List Text) where
  -- `if not args.no_wait and not await …: await …`
  abbrev wait_first : Exec W Bool → Exec W (Unit {0}) → Exec W (Unit {0})
  wait_first has waits w =
      if no_wait then (ok tt, w) else after (has w) (λ there. if there then pure tt else waits)

  abbrev parsed : Exec W (Args Data × Kwargs Data)
  parsed w = (parse_args_and_kwargs (python w) args, w)

  unfoldable pub send_once : Topic Data W → Exec W (Unit {0})
  send_once topic = do
    wait_first topic.has_listeners topic.wait_for_listener
    found ← parsed
    topic.send found.0 found.1

  unfoldable pub call_once : Service Data W → Exec W (Unit {0})
  call_once service = do
    wait_first service.has_providers service.wait_for_provider
    found ← parsed
    response ← service.call found.0 found.1
    pure tt

  -- The sanity check: arguments that are wrong raise before a node is built.
  unfoldable pub checked : (W → Option (Result (Unit {0}) × W)) → W → Option (Result (Unit {0}) × W)
  checked main w = elim (parse_args_and_kwargs (python w) args) [
    | err e ↦ some (err e, w)
    | ok _ ↦ main w
  ]

module _ {W : Type 0} (repeats : Bool) (once : Exec W (Unit {0})) where
  -- A run goes on where the part before it raised nothing.
  abbrev pub and_then :
      Result (Unit {0}) × W → (W → Option (Result (Unit {0}) × W)) → Option (Result (Unit {0}) × W)
  and_then (err e, w) rest = some (err e, w)
  and_then (ok _, w) rest = rest w

  -- `while args.interval >= 0: sleep; send_once`
  unfoldable pub send_again : List (Exec W (Unit {0})) → W → Option (Result (Unit {0}) × W)
  send_again [] w = if repeats then none else some (ok tt, w)
  send_again (sleep ∷ sleeps) w =
      let again = and_then (sleep w) (λ w'. and_then (once w') (send_again sleeps)) in
      if repeats then again else some (ok tt, w)

  -- `_send_main`
  unfoldable pub send_main : List (Exec W (Unit {0})) → W → Option (Result (Unit {0}) × W)
  unfolding send_again
  send_main sleeps w = and_then (once w) (send_again sleeps)

  -- `while True: call_once; sleep`
  unfoldable pub call_again : List (Exec W (Unit {0})) → W → Option (Result (Unit {0}) × W)
  call_again [] w = and_then (once w) (λ _. none)
  call_again (sleep ∷ sleeps) w = and_then (once w) (λ w'. and_then (sleep w') (call_again sleeps))

  -- `_call_main`
  unfoldable pub call_main : List (Exec W (Unit {0})) → W → Option (Result (Unit {0}) × W)
  unfolding call_again
  call_main sleeps w = if repeats then call_again sleeps w else some (once w)
