-- ===== src/Cli/Send/Laws.antt =====
-- The two commands make the same rounds.
use rosy.Base.Exec.{Exec}
