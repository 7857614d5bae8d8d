-- ===== src/Services/TerminalService.antt =====
-- One command over SSH (`exec_command` of backend/src/services/terminal_service.rs). The connection
-- and its certificate are I/O; the messages that the channel delivers are the environment's, and
-- their list is finite: a channel that goes on for ever, on which `exec_command` does not answer,
-- is left out.
pub mod Output
use hzelmaim.Prelude.{ℕ, List, [], ◌∷◌, ◌++◌, ◌==◌, if◌then◌else◌}
use hzelmaim.Prelude.Bytes.{Bytes}
use hzelmaim.Prelude.Lossy.{from_utf8_lossy}
use hzelmaim.Models.Ssh.{ChannelMsg, ExecOutput, data_msg, extended_data, exit_status, eof, other}
use hzelmaim.World.{M, Effect, call}

-- The loop over `ch.wait()`, which ends at EOF or when the channel is closed.
unfoldable pub drain : List ChannelMsg → ExecOutput → ExecOutput
drain [] out = out
drain (data_msg bytes ∷ ms) out = drain ms (record out { stdout = out.stdout ++ bytes })
drain (extended_data bytes ext ∷ ms) out =
    drain ms (if ext == 1 then record out { stderr = out.stderr ++ bytes } else out)
drain (exit_status code ∷ ms) out = drain ms (record out { exit_code = code })
drain (eof ∷ ms) out = out
drain (other ∷ ms) out = drain ms out

abbrev pub no_output : ExecOutput
no_output = record { stdout = []; stderr = []; exit_code = 0 }

-- The answer, whose bytes have become texts.
abbrev pub as_texts : ExecOutput → ExecOutput
as_texts out = record out {
  stdout = from_utf8_lossy out.stdout;
  stderr = from_utf8_lossy out.stderr;
}

unfoldable pub exec_command : ℕ → Bytes → M ExecOutput
exec_command ctid command =
    call (Effect.exec_deployment ctid command) (λ e n. as_texts (drain (e.channel n) no_output))
