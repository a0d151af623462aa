-- ===== src/System/Append.antt =====
-- Files opened for appending, from the client's side.
use dockerfuse.Base.{ℕ, ◌≡◌, refl, ◌++◌, ◌∙◌, ap, true, some, List}
use dockerfuse.Base.Bits.{has}
use dockerfuse.Base.Int.{ℤ}
use dockerfuse.Base.Text.{Text, str, text_eq, has_prefix}
use dockerfuse.Os.{Os}
use dockerfuse.Os.Errno.{ErrorName, errno}
use dockerfuse.Os.Flags.{open_flag, append}
use dockerfuse.RpcCommon.Error.{fail, other, errno_to_rpc_error_string, rpc_error_string_to_errno}
use dockerfuse.RpcCommon.Flags.{system_to_sa_flags, sa_flags_to_system, open_flags_across}
use dockerfuse.Satellite.FileSystem.{FileSystem, Try}
use dockerfuse.Satellite.Table.{find}
use dockerfuse.Satellite.Server.{Server, open_file_of}
use dockerfuse.Satellite.Server.Laws.{>>=-return, >>=-raise, open_file_of-some}
use dockerfuse.Satellite.Dispatch
use dockerfuse.Satellite.Dispatch.{dispatch}
use dockerfuse.Satellite.Descriptors
use dockerfuse.Client.Rpc.{Client, Outcome, remote, remote_error}
use dockerfuse.Client.Calls
use dockerfuse.Client.Calls.{uintptr}
use dockerfuse.System.Link.{satellite_rpc, connected, call_then-fail}
use dockerfuse.System.Errors.{remote_error_of}

-- errWriteAtInAppendMode of package os.
abbrev pub append_refusal : Text
append_refusal = str "os: invalid use of WriteAt on file opened with O_APPEND"

-- os.File.WriteAt: "If file was opened with O_APPEND, WriteAt returns an error", in any state.
abbrev pub RefusesAppend : FileSystem → Os → Type 0
RefusesAppend F os =
    (p : Text) (flags mode : ℕ) (w : F.World) (f : F.File)
    → has flags (open_flag os append) ≡ true
    → (F.open_file p flags mode w).0 ≡ Try.done f
    → (bytes : List ℕ) (offset : ℤ) (w' : F.World)
    → (F.write_at f bytes offset w').0 ≡ Try.raise (other append_refusal)

-- What ErrnoToRPCErrorString makes of it.
abbrev refused_text : Text
refused_text = str "unknown error: " ++ append_refusal

module _ (F : FileSystem) (server_os client_os : Os) (c : Client (satellite_rpc F server_os)) where
  unknown_error_arrives :
      {A : Type 0}
      → remote_error {A = A} client_os refused_text ≡ Outcome.errno (errno client_os ErrorName.eio)
  unfolding rpc_error_string_to_errno has_prefix
  unknown_error_arrives = remote_error_of client_os refused_text _ refl

  write_fails :
      (s : Server F) (k : ℕ) (offset : ℤ) (bytes : List ℕ) (file : F.File)
      → find s.fds k ≡ some file
      → (F.write_at file bytes offset s.world).0 ≡ Try.raise (other append_refusal)
      → dispatch F server_os (Dispatch.write (record { fd = k; offset = offset; bytes = bytes })) s
        ≡ (fail refused_text, record s { world = (F.write_at file bytes offset s.world).1 })
  unfolding dispatch Descriptors.write errno_to_rpc_error_string text_eq
  write_fails s k offset bytes file found e =
      >>=-return (open_file_of server_os k) _ s s file (open_file_of-some server_os k s file found)
      ∙ >>=-raise server_os (F.write_at file bytes offset) _ s (other append_refusal) _
          (ap (λ (o : Try ℤ). (o, (F.write_at file bytes offset s.world).1)) e)

  -- A failed WriteAt with an error of no known type arrives as EIO.
  write_refused :
      (s : Server F) (k : ℕ) (offset : ℤ) (bytes : List ℕ) (file : F.File)
      → find s.fds k ≡ some file
      → (F.write_at file bytes offset s.world).0 ≡ Try.raise (other append_refusal)
      → (Calls.write client_os (uintptr k) offset bytes (connected F server_os c (some s))).0
        ≡ Outcome.errno (errno client_os ErrorName.eio)
  unfolding Calls.write remote
  write_refused s k offset bytes file found e =
      ap (λ x. x.0)
        (call_then-fail F server_os _ _ _ c s _ refused_text
          (write_fails s k offset bytes file found e))
      ∙ unknown_error_arrives

  -- In a system whose WriteAt refuses files opened with O_APPEND, as os.File does, every write
  -- through the handle of a file that a program opened with O_APPEND answers EIO.
  pub append_write-eio :
      RefusesAppend F server_os
      → (p : Text) (flags mode k : ℕ) (w : F.World) (s : Server F) (file : F.File) (offset : ℤ)
        (bytes : List ℕ)
      → has flags (open_flag client_os append) ≡ true
      → (F.open_file p (sa_flags_to_system server_os (system_to_sa_flags client_os flags)) mode w).0
        ≡ Try.done file
      → find s.fds k ≡ some file
      → (Calls.write client_os (uintptr k) offset bytes (connected F server_os c (some s))).0
        ≡ Outcome.errno (errno client_os ErrorName.eio)
  append_write-eio law p flags mode k w s file offset bytes appending opened found =
      write_refused s k offset bytes file found (
        law p _ mode w file (open_flags_across client_os server_os flags append ∙ appending) opened
          bytes offset s.world)
