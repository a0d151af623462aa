-- ===== src/Satellite/FileSystem.antt =====
-- cmd/satellite/server/filesystem.go: the interfaces `fileSystem` and `file`. The operating system
-- behind them is a parameter: a state, and operations that may fail and change it.
use dockerfuse.Base.{ℕ, List, Option}
use dockerfuse.Base.Int.{ℤ}
use dockerfuse.Base.Text.{Text}
use dockerfuse.RpcCommon.Error.{GoError}

-- A value or a non-nil error.
pub data Try {ℓ} (A : Type ℓ) : Type ℓ where
  done : A → Try A
  raise : GoError → Try A

-- The fields of syscall.Stat_t that the server reads from FileInfo.Sys(). Access, modification and
-- change times are in whole seconds.
pub record Stat : Type 0 where
  pub mode : ℕ
  pub nlink : ℕ
  pub ino : ℕ
  pub uid : ℕ
  pub gid : ℕ
  pub atime : ℤ
  pub mtime : ℤ
  pub ctime : ℤ
  pub size : ℤ
  pub blocks : ℤ
  pub blksize : ℤ

-- syscall.Timespec
pub record Timespec : Type 0 where
  pub sec : ℤ
  pub nsec : ℤ

pub record FileSystem : Type 1 where
  -- the state of the operating system
  pub World : Type 0
  -- the interface `file`
  pub File : Type 0
  -- os.DirEntry
  pub Entry : Type 0
  pub entry_name : Entry → Text
  pub entry_info : Entry → World → Try Stat × World
  pub chmod : Text → ℕ → World → Try (Unit {0}) × World
  pub chown : Text → ℤ → ℤ → World → Try (Unit {0}) × World
  pub link : Text → Text → World → Try (Unit {0}) × World
  pub lstat : Text → World → Try Stat × World
  pub mkdir : Text → ℕ → World → Try (Unit {0}) × World
  pub open_file : Text → ℕ → ℕ → World → Try File × World
  pub read_dir : Text → World → Try (List Entry) × World
  pub readlink : Text → World → Try Text × World
  pub remove : Text → World → Try (Unit {0}) × World
  pub rename : Text → Text → World → Try (Unit {0}) × World
  pub symlink : Text → Text → World → Try (Unit {0}) × World
  pub truncate : Text → ℤ → World → Try (Unit {0}) × World
  pub utimes_nano : Text → Timespec → Timespec → World → Try (Unit {0}) × World
  -- the number of a file, which is that of its descriptor
  pub fd : File → ℕ
  pub close : File → World → Try (Unit {0}) × World
  -- at most that many bytes from the offset on: the bytes that were read, and an error if they are
  -- fewer
  pub read_at : File → ℕ → ℤ → World → (List ℕ × Option GoError) × World
  pub seek : File → ℤ → ℤ → World → Try ℤ × World
  pub write_at : File → List ℕ → ℤ → World → Try ℤ × World
  pub stat : File → World → Try Stat × World
  pub sync : File → World → Try (Unit {0}) × World
