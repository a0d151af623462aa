-- ===== src/Tests/Memory.antt =====
-- A small operating system in memory: the paths that exist, one content that all files share, and the
-- numbers of the open files. Files that were opened for appending have odd numbers.
use dockerfuse.Base.{
  ℕ, Bool, true, false, Option, none, some, List, [], ◌∷◌, ◌++◌, ◌+◌, ◌*◌, ◌%◌, zero, suc, length,
  ltb, ◌==◌, if◌then◌else◌,
}
use dockerfuse.Base.Bits.{has}
use dockerfuse.Base.Int.{ℤ, pos, negsuc}
use dockerfuse.Base.Text.{Text, str, text_eq}
use dockerfuse.Os.{Os}
use dockerfuse.Os.Errno.{ErrorName, errno}
use dockerfuse.Os.Flags.{open_flag, append}
use dockerfuse.RpcCommon.Error.{errno_cause, other_cause, GoError, path_error, other, eof}
use dockerfuse.Satellite.FileSystem.{FileSystem, Stat, Try, done, raise}
use dockerfuse.System.Append.{append_refusal}

pub record Disk : Type 0 where
  pub paths : List Text
  pub content : List ℕ
  pub open_numbers : List ℕ

unfoldable pub among : Text → List Text → Bool
unfolding text_eq
among p [] = false
among p (q ∷ qs) = let rest = among p qs in if text_eq p q then true else rest

unfoldable pub member : ℕ → List ℕ → Bool
member k [] = false
member k (j ∷ js) = let rest = member k js in if k == j then true else rest

unfoldable pub without : ℕ → List ℕ → List ℕ
without k [] = []
without k (j ∷ js) = let rest = without k js in if k == j then rest else j ∷ rest

unfoldable pub total : List ℕ → ℕ
total [] = 0
total (j ∷ js) = j + total js

-- An unused number, odd for a file that is opened for appending.
unfoldable pub fresh : Bool → List ℕ → ℕ
unfolding total
fresh appending js = 2 * (1 + total js) + (if appending then 1 else 0)

unfoldable pub first : {A : Type 0} → ℕ → List A → List A
first zero xs = []
first (suc n) [] = []
first (suc n) (x ∷ xs) = x ∷ first n xs

unfoldable pub later : {A : Type 0} → ℕ → List A → List A
later zero xs = xs
later (suc n) [] = []
later (suc n) (x ∷ xs) = later n xs

abbrev pub plain_stat : Stat
plain_stat = record {
  mode = 33188;
  nlink = 1;
  ino = 42;
  uid = 1000;
  gid = 100;
  atime = pos 1700000000;
  mtime = pos 1700000001;
  ctime = pos 1700000002;
  size = pos 3;
  blocks = pos 8;
  blksize = pos 4096;
}

module _ (os : Os) where
  abbrev pub no_entry : GoError
  no_entry = path_error (errno_cause (errno os ErrorName.enoent))

  abbrev pub with_path : {A : Type 0} → Text → A → Disk → Try A
  with_path p v d = if among p d.paths then done v else raise no_entry

  -- One entry stands for a file that has been removed since the directory was read.
  abbrev pub entry_of : Text → Disk → Try Stat × Disk
  entry_of n d = (with_path n plain_stat d, d)

  unfoldable pub open_on : ℕ → Text → Disk → Try ℕ × Disk
  open_on flags p d =
      let k = fresh (has flags (open_flag os append)) d.open_numbers in
      if among p d.paths
      then (done k, record d { open_numbers = k ∷ d.open_numbers })
      else (raise no_entry, d)

  unfoldable pub read_on : ℕ → ℤ → Disk → (List ℕ × Option GoError) × Disk
  read_on n (negsuc _) d = (([], some (path_error (other_cause (str "negative offset")))), d)
  read_on n (pos o) d =
      let bytes = first n (later o d.content) in
      ((bytes, if ltb (length bytes) n then some (other eof) else none), d)

  unfoldable pub write_on : ℕ → List ℕ → ℤ → Disk → Try ℤ × Disk
  write_on k bytes offset d = if (k % 2) == 1 then (raise (other append_refusal), d) else (
    done (pos (length bytes)),
    record d { content = first (elim offset [ pos o ↦ o | negsuc _ ↦ 0 ]) d.content ++ bytes },
  )

  abbrev pub memory : FileSystem
  memory = record {
    World = Disk;
    File = ℕ;
    Entry = Text;
    entry_name = λ e. e;
    entry_info = entry_of;
    chmod = λ p m d. (with_path p tt d, d);
    chown = λ p u g d. (with_path p tt d, d);
    link = λ p q d. (with_path p tt d, record d { paths = q ∷ d.paths });
    lstat = entry_of;
    mkdir = λ p m d. (done tt, record d { paths = p ∷ d.paths });
    open_file = λ p flags mode. open_on flags p;
    read_dir = λ p d. (with_path p d.paths d, d);
    readlink = λ p d. (raise no_entry, d);
    remove = λ p d. (with_path p tt d, d);
    rename = λ p q d. (with_path p tt d, record d { paths = q ∷ d.paths });
    symlink = λ p q d. (done tt, record d { paths = q ∷ d.paths });
    truncate = λ p n d. (with_path p tt d, d);
    utimes_nano = λ p a m d. (with_path p tt d, d);
    fd = λ f. f;
    close = λ f d. (done tt, record d { open_numbers = without f d.open_numbers });
    read_at = λ f. read_on;
    seek = λ f o whence d. (done o, d);
    write_at = write_on;
    stat = λ f d. (done plain_stat, d);
    sync = λ f d. (done tt, d);
  }
