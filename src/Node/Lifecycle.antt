-- ===== src/Node/Lifecycle.antt =====
-- The node's states: a node is started at most once, and stopping is final.
use rosy.Base.{◌≡◌, refl, false, List, [], ◌∷◌, arith}
use rosy.Base.Text.{Text}
use rosy.Base.Exec.{ok, err, runtime_error}
use rosy.Node.{
  State, initd, started, stopped, is_initd, Parts, Node, register, start, stop, aenter, aexit,
  listen, stop_listening, add_service, remove_service,
}

-- The operations that a program calls on a node that it holds.
pub data Op (TC SC : Type 0) : Type 0 where
  op_start op_stop op_enter op_exit : Op TC SC
  op_listen : Text → TC → Op TC SC
  op_stop_listening op_remove_service : Text → Op TC SC
  op_add_service : Text → SC → Op TC SC

-- How the state of a node may change.
abbrev pub MayBecome : State → State → Type 0
MayBecome initd _ = Unit
MayBecome started initd = ⊥
MayBecome started _ = Unit
MayBecome stopped stopped = Unit
MayBecome stopped _ = ⊥

MayBecome-refl : (s : State) → MayBecome s s
MayBecome-refl initd = tt
MayBecome-refl started = tt
MayBecome-refl stopped = tt

MayBecome-stopped : (s : State) → MayBecome s stopped
MayBecome-stopped initd = tt
MayBecome-stopped started = tt
MayBecome-stopped stopped = tt

MayBecome-trans : (r s t : State) → MayBecome r s → MayBecome s t → MayBecome r t
MayBecome-trans initd s t a b = tt
MayBecome-trans started initd t a b = absurd a
MayBecome-trans started started t a b = b
MayBecome-trans started stopped initd a b = absurd b
MayBecome-trans started stopped started a b = absurd b
MayBecome-trans started stopped stopped a b = tt
MayBecome-trans stopped initd t a b = absurd a
MayBecome-trans stopped started t a b = absurd a
MayBecome-trans stopped stopped t a b = b

leaves_initd : (r s : State) → is_initd r ≡ false → MayBecome r s → is_initd s ≡ false
leaves_initd r s h m = ground arith

stays_stopped : (r s : State) → r ≡ stopped → MayBecome r s → s ≡ stopped
stays_stopped r s h m = ground arith

module _ {Data W TC SC : Type 0} (parts : Parts Data W) where
  -- The node and its parts after one operation, whatever it returns or raises.
  unfoldable pub perform : Op TC SC → Node TC SC × W → Node TC SC × W
  perform op_start s = (start parts s).1
  perform op_stop s = (stop parts s).1
  perform op_enter s = (aenter parts s).1
  perform op_exit s = (aexit parts s).1
  perform (op_listen topic callback) s = (listen parts topic callback s).1
  perform (op_stop_listening topic) s = (stop_listening parts topic s).1
  perform (op_add_service service handler) s = (add_service parts service handler s).1
  perform (op_remove_service service) s = (remove_service parts service s).1

  unfoldable pub perform_all : List (Op TC SC) → Node TC SC × W → Node TC SC × W
  perform_all [] s = s
  perform_all (op ∷ ops) s = perform_all ops (perform op s)

  start_not_initd : (s : Node TC SC × W) → is_initd (start parts s).1.0.state ≡ false
  unfolding start register
  start_not_initd (n, w) = ground arith

  start_started :
      (s : Node TC SC × W) → is_initd s.0.state ≡ false → start parts s ≡ (err runtime_error, s)
  unfolding start
  start_started (n, w) h = rw (h) refl

  stop_state : (s : Node TC SC × W) → (stop parts s).1.0.state ≡ stopped
  unfolding stop
  stop_state (n, w) = ground arith

  stop_stopped : (s : Node TC SC × W) → s.0.state ≡ stopped → stop parts s ≡ (ok tt, s)
  unfolding stop
  stop_stopped (n, w) h = rw (h) refl

  perform-MayBecome :
      (op : Op TC SC) (s : Node TC SC × W) → MayBecome s.0.state (perform op s).0.state
  unfolding perform start stop aenter aexit listen stop_listening add_service remove_service
      register
  perform-MayBecome op_start (n, w) = ground arith
  perform-MayBecome op_stop (n, w) = ground arith
  perform-MayBecome op_enter (n, w) = ground arith
  perform-MayBecome op_exit (n, w) = ground arith
  perform-MayBecome (op_listen topic callback) (n, w) = MayBecome-refl n.state
  perform-MayBecome (op_stop_listening topic) (n, w) = ground arith
  perform-MayBecome (op_add_service service handler) (n, w) = MayBecome-refl n.state
  perform-MayBecome (op_remove_service service) (n, w) = ground arith

  -- Whatever operations a program calls, and whatever they raise, the state of the node only moves
  -- from initialized to started or stopped, and from started to stopped.
  pub perform_all-MayBecome :
      (ops : List (Op TC SC)) (s : Node TC SC × W) → MayBecome s.0.state (perform_all ops s).0.state
  unfolding perform_all
  perform_all-MayBecome [] s = MayBecome-refl s.0.state
  perform_all-MayBecome (op ∷ ops) s =
      MayBecome-trans s.0.state (perform op s).0.state (perform_all ops (perform op s)).0.state
        (perform-MayBecome op s) (perform_all-MayBecome ops (perform op s))

  -- A node is started at most once: after a call of `start`, whatever it raised and whatever
  -- operations follow, `start` raises a `RuntimeError` and changes nothing.
  pub start_once :
      (ops : List (Op TC SC)) (s : Node TC SC × W)
      → start parts (perform_all ops (start parts s).1)
        ≡ (err runtime_error, perform_all ops (start parts s).1)
  start_once ops s =
      let s' = (start parts s).1 in
      start_started (perform_all ops s') (
        leaves_initd s'.0.state (perform_all ops s').0.state (start_not_initd s)
          (perform_all-MayBecome ops s'))

  -- A stop is final: after a call of `stop`, whatever it raised and whatever operations follow, the
  -- node is stopped, and another `stop` changes nothing and raises nothing.
  pub stop_final :
      (ops : List (Op TC SC)) (s : Node TC SC × W)
      → ((perform_all ops (stop parts s).1).0.state ≡ stopped)
        × (stop parts (perform_all ops (stop parts s).1)
            ≡ (ok tt, perform_all ops (stop parts s).1))
  stop_final ops s =
      let s' = (stop parts s).1 in
      let h =
        stays_stopped s'.0.state (perform_all ops s').0.state (stop_state s)
          (perform_all-MayBecome ops s') in
      (h, stop_stopped (perform_all ops s') h)
