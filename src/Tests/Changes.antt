-- ===== src/Tests/Changes.antt =====
-- Changes of attributes and refusals through the client, at concrete inputs.
use dockerfuse.Base.{◌≡◌, refl, true, false, none, some}
use dockerfuse.Base.Int.{pos}
use dockerfuse.Base.Text.{str}
use dockerfuse.Os.{linux, darwin}
use dockerfuse.RpcCommon.Error.{path_error, errno_cause, errno_to_rpc_error_string}
use dockerfuse.RpcCommon.SetAttr.{zero_time}
use dockerfuse.Satellite.Server.{◌>>◌}
use dockerfuse.Satellite.Dispatch
use dockerfuse.Satellite.Dispatch.{Method, dispatch}
use dockerfuse.Satellite.Paths
use dockerfuse.Satellite.Paths.{is_not_exist, stat}
use dockerfuse.Satellite.Server.Laws.{attempt-raise}
use dockerfuse.Client.Rpc.{Outcome}
use dockerfuse.Client.Calls
use dockerfuse.Client.Calls.{
  FileHandle, uintptr, StatAttr, SetAttrIn, set_attr_request, listed_entries,
}
use dockerfuse.System.SetAttr.{answers, answers-set_attr_request}
use dockerfuse.System.SetAttr.Calls.{
  set_attr_calls, change_mode, change_owner, change_times, change_size,
}
use dockerfuse.System.Refusals.{refused_across, number_seen}
use dockerfuse.Tests.Memory.{among}
use dockerfuse.Tests.Handlers.{F}
use dockerfuse.Tests.Mount.{c, s, conn}

-- The kernel asks for a mode, a group and a time.
abbrev asked : SetAttrIn
asked = record {
  a_time = none;
  m_time = some (record { sec = pos 1700000000; nsec = 5 });
  uid = none;
  gid = some 100;
  mode = some 420;
  size = none;
}

answers-set_attr_request_example : answers (set_attr_request (str "/etc/hosts") asked) ≡ record {
  a_time = (zero_time, false);
  m_time = (record { sec = pos 1700000000; nsec = 5 }, true);
  uid = (0, false);
  gid = (100, true);
  mode = (420, true);
  size = (0, false);
}
answers-set_attr_request_example = answers-set_attr_request (str "/etc/hosts") asked

set_attr_calls_example :
    dispatch F linux (Dispatch.set_attr (set_attr_request (str "/etc/hosts") asked)) ≡ (
      change_mode F linux (str "/etc/hosts") (some 420)
      >> (change_owner F linux (str "/etc/hosts") none (some 100)
          >> (change_times F linux
                (str "/etc/hosts")
                none
                (some (record { sec = pos 1700000000; nsec = 5 }))
              >> (change_size F linux (str "/etc/hosts") none
                  >> stat F linux (record { full_path = str "/etc/hosts" })))))
set_attr_calls_example = set_attr_calls F linux (str "/etc/hosts") asked

missing_path :
    dispatch F linux (Dispatch.unlink (record { full_path = str "/x" })) s
    ≡ (errno_to_rpc_error_string linux (path_error (errno_cause 2)), s)
unfolding dispatch Paths.unlink among
missing_path = attempt-raise linux (F.remove (str "/x")) s (path_error (errno_cause 2)) s.world refl

refused_across_example :
    Calls.unlink darwin (str "/x") (conn s)
    ≡ (Outcome.errno (number_seen darwin linux (path_error (errno_cause 2))), conn s)
unfolding Calls.unlink
refused_across_example =
    refused_across F linux darwin (Dispatch.unlink (record { full_path = str "/x" })) (λ r. r) c s
      (path_error (errno_cause 2)) s missing_path
