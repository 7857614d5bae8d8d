-- ===== src/Models/Ssh.antt =====
-- What an SSH channel sends while a command runs, and what is kept of it
-- (russh's `ChannelMsg`, as backend/src/services/terminal_service.rs matches on it).
use hzelmaim.Prelude.{ℕ}
use hzelmaim.Prelude.Bytes.{Bytes}

pub data ChannelMsg : Type 0 where
  data_msg : Bytes → ChannelMsg
  extended_data : Bytes → ℕ → ChannelMsg
  exit_status : ℕ → ChannelMsg
  eof : ChannelMsg
  -- Any message that the loop ignores.
  other : ChannelMsg

pub record ExecOutput : Type 0 where
  pub stdout : Bytes
  pub stderr : Bytes
  pub exit_code : ℕ
