-- ===== src/Services/TerminalService/Output.antt =====
-- What `exec_command` keeps of the messages of its channel.
use hzelmaim.Prelude.{
  ℕ, ◌≡◌, refl, ap, none, some, List, [], ◌∷◌, ◌++◌, ◌==◌, if◌then◌else◌, Bool-cases, inl, inr,
}
use mathlib.Core.List.{append_assoc, append-nil}
use hzelmaim.Prelude.Bytes.{Bytes}
use hzelmaim.Models.Ssh.{ChannelMsg, ExecOutput, data_msg, extended_data, exit_status, eof, other}
use hzelmaim.Api.{ApiError, ok, err}
use hzelmaim.Prelude.Lossy.{from_utf8_lossy}
use hzelmaim.World.{World, call}
use hzelmaim.Services.TerminalService.{drain, no_output, as_texts, exec_command}

-- The messages in front of the first EOF.
unfoldable pub before_eof : List ChannelMsg → List ChannelMsg
before_eof [] = []
before_eof (eof ∷ ms) = []
before_eof (m ∷ ms) = m ∷ before_eof ms

-- The last exit status of a list of messages, or the one given.
unfoldable pub last_status : ℕ → List ChannelMsg → ℕ
last_status code [] = code
last_status code (exit_status n ∷ ms) = last_status n ms
last_status code (_ ∷ ms) = last_status code ms

unfoldable pub printed : List ChannelMsg → Bytes
printed [] = []
printed (data_msg bytes ∷ ms) = bytes ++ printed ms
printed (_ ∷ ms) = printed ms

abbrev if_stderr : ℕ → Bytes → Bytes
if_stderr ext bytes = if ext == 1 then bytes else []

unfoldable pub complained : List ChannelMsg → Bytes
complained [] = []
complained (extended_data bytes ext ∷ ms) = if_stderr ext bytes ++ complained ms
complained (_ ∷ ms) = complained ms

abbrev kept : ExecOutput → List ChannelMsg → ExecOutput
kept out ms = record {
  stdout = out.stdout ++ printed ms;
  stderr = out.stderr ++ complained ms;
  exit_code = last_status out.exit_code ms;
}

drain_from : (ms : List ChannelMsg) (out : ExecOutput) → drain ms out ≡ kept out (before_eof ms)
unfolding drain before_eof last_status printed complained
drain_from [] out = rw (append-nil out.stdout, append-nil out.stderr) refl
drain_from (eof ∷ ms) out = rw (append-nil out.stdout, append-nil out.stderr) refl
drain_from (other ∷ ms) out = drain_from ms out
drain_from (exit_status n ∷ ms) out = drain_from ms (record out { exit_code = n })
drain_from (data_msg b ∷ ms) out =
    rw (drain_from ms (record out { stdout = out.stdout ++ b }))
      (rw (append_assoc out.stdout b (printed (before_eof ms))) refl)
drain_from (extended_data b ext ∷ ms) out = elim (Bool-cases (ext == 1)) [
  | inl t ↦
      rw (t, drain_from ms (record out { stderr = out.stderr ++ b }))
        (rw (append_assoc out.stderr b (complained (before_eof ms))) refl)
  | inr f ↦ rw (f, drain_from ms out) refl
]

pub drain_lem :
    (ms : List ChannelMsg)
    → drain ms no_output ≡ record {
      stdout = printed (before_eof ms);
      stderr = complained (before_eof ms);
      exit_code = last_status 0 (before_eof ms);
    }
drain_lem ms = drain_from ms no_output

-- `exec_command` fails when SSH does. Otherwise, on a channel whose messages end, it answers the
-- data and the standard error that arrive before the first EOF, in order and read as UTF-8 with
-- replacement characters, and the last exit status before it, or 0 when none arrives before it.
pub exec_command_lem :
    (ctid : ℕ) (command : Bytes) (w : World)
    → ((e : ApiError)
        → w.env.proxmox_fault w.steps ≡ some e
        → (exec_command ctid command w).0 ≡ err e)
      × (w.env.proxmox_fault w.steps ≡ none
          → (exec_command ctid command w).0
            ≡ ok (record {
              stdout = from_utf8_lossy (printed (before_eof (w.env.channel w.steps)));
              stderr = from_utf8_lossy (complained (before_eof (w.env.channel w.steps)));
              exit_code = last_status 0 (before_eof (w.env.channel w.steps));
            }))
unfolding exec_command call
exec_command_lem ctid command w = (
  λ e down. rw down refl,
  λ up. rw up (ap (λ (o : ExecOutput). ok (as_texts o)) (drain_lem (w.env.channel w.steps))),
)
