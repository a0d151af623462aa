-- ===== src/Tests/Processes.antt =====
-- The satellite's process at concrete inputs.
use dockerfuse.Base.{true, false, none, some}
use dockerfuse.Base.Text.{str}
use dockerfuse.RpcCommon.Error.{other}
use dockerfuse.Satellite.FileSystem.{done, raise, Try}
use dockerfuse.Satellite.Main.{Flags, Process}
use dockerfuse.Satellite.Main.Ends.{Ends}
use dockerfuse.Tests.OneFile.{Slot, one_file}

-- Standard input is closed already.
abbrev broken_pipe : Slot → Try (Unit {0}) × Slot
broken_pipe w = (raise (other (str "broken pipe")), w)

abbrev closes : Slot → Try (Unit {0}) × Slot
closes w = (done tt, w)

abbrev process : Process one_file
process = record {
  LogFile = Unit {0};
  print = λ t w. w;
  open_log = λ p flags mode w. (raise (other (str "read-only file system")), w);
  close_log = λ f w. (done tt, w);
  log_to = λ f w. w;
  register = λ w. (done tt, w);
  serve_conn = λ s. s;
  close_stdin = broken_pipe;
  close_stdout = closes;
  woken = λ s. some s.fds;
}

abbrev slot : Slot
slot = record { next_serial = 0; opened = none }

abbrev with_log : Flags
with_log = record { persistent_log = true; print_version = false }
