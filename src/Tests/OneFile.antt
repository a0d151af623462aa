-- ===== src/Tests/OneFile.antt =====
-- An operating system that keeps one file open at a time, under one number. Each open(2) gives a new
-- file, as os.OpenFile gives a new *os.File, and a file that is closed refuses to be closed again.
use dockerfuse.Base.{
  ℕ, ◌≡◌, refl, ◌≢◌, ◌⊎◌, Bool, true, false, Option, none, some, [], suc, ◌==◌, if◌then◌else◌,
  arith,
}
use dockerfuse.Base.Int.{pos}
use dockerfuse.Base.Text.{Text, str}
use dockerfuse.RpcCommon.Error.{GoError, errno_cause, other_cause, path_error}
use dockerfuse.Satellite.FileSystem.{FileSystem, Try, done, raise}
use dockerfuse.Satellite.OpenFiles.{OpenFiles}
use dockerfuse.Tests.Memory.{plain_stat}

pub record Slot : Type 0 where
  pub next_serial : ℕ
  pub opened : Option ℕ

-- The number of every file.
abbrev pub the_number : ℕ
the_number = 3

abbrev pub already_closed : Text
already_closed = str "file already closed"

abbrev pub emfile : GoError
emfile = path_error (errno_cause 24)

unfoldable pub holds : Slot → ℕ → Bool
holds w f = elim w.opened [ none ↦ false | some g ↦ f == g ]

unfoldable pub open_slot : Slot → Try ℕ × Slot
open_slot w = elim w.opened [
  | none ↦
      (done w.next_serial, record { next_serial = suc w.next_serial; opened = some w.next_serial })
  | some _ ↦ (raise emfile, w)
]

unfoldable pub close_slot : ℕ → Slot → Try (Unit {0}) × Slot
unfolding holds
close_slot f w =
    if holds w f
    then (done tt, record w { opened = none })
    else (raise (path_error (other_cause already_closed)), w)

abbrev pub one_file : FileSystem
one_file = record {
  World = Slot;
  File = ℕ;
  Entry = Unit {0};
  entry_name = λ e. [];
  entry_info = λ e w. (done plain_stat, w);
  chmod = λ p m w. (done tt, w);
  chown = λ p u g w. (done tt, w);
  link = λ p q w. (done tt, w);
  lstat = λ p w. (done plain_stat, w);
  mkdir = λ p m w. (done tt, w);
  open_file = λ p flags mode. open_slot;
  read_dir = λ p w. (done [], w);
  readlink = λ p w. (raise emfile, w);
  remove = λ p w. (done tt, w);
  rename = λ p q w. (done tt, w);
  symlink = λ p q w. (done tt, w);
  truncate = λ p n w. (done tt, w);
  utimes_nano = λ p a m w. (done tt, w);
  fd = λ f. the_number;
  close = close_slot;
  read_at = λ f n o w. (([], none), w);
  seek = λ f o whence w. (done o, w);
  write_at = λ f bytes o w. (done (pos 0), w);
  stat = λ f w. (done plain_stat, w);
  sync = λ f w. (done tt, w);
}

fails :
    (w : Slot) (g : ℕ) {e : GoError}
    → (open_slot w).0 ≡ raise e
    → holds (open_slot w).1 g ≡ holds w g
unfolding open_slot holds
fails w g h = ground arith

self : (w : Slot) {f : ℕ} → (open_slot w).0 ≡ done f → holds (open_slot w).1 f ≡ true
unfolding open_slot holds
self w h = ground arith

only :
    (w : Slot) {f : ℕ} (g : ℕ)
    → (open_slot w).0 ≡ done f
    → holds (open_slot w).1 g ≡ true
    → (g ≡ f) ⊎ (holds w g ≡ true)
unfolding open_slot holds
only w g h k = ground arith

still :
    (w : Slot) {f : ℕ} (g : ℕ)
    → (open_slot w).0 ≡ done f
    → holds w g ≡ true
    → holds (open_slot w).1 g ≡ true
unfolding open_slot holds
still w g h k = ground arith

fresh :
    (w : Slot) {f : ℕ} (g : ℕ)
    → (open_slot w).0 ≡ done f
    → holds w g ≡ true
    → the_number ≢ the_number
unfolding open_slot holds
fresh w g h k e = ground arith

close_self : (f : ℕ) (w : Slot) → holds (close_slot f w).1 f ≡ false
unfolding close_slot holds
close_self f w = ground arith

close_other : (f : ℕ) (w : Slot) (g : ℕ) → g ≢ f → holds (close_slot f w).1 g ≡ holds w g
unfolding close_slot holds
close_other f w g h = ground arith

pub one_file_open_files : OpenFiles one_file
one_file_open_files = record {
  is_open = holds;
  open_file_fails = λ p flags mode w g h. fails w g h;
  open_file_self = λ p flags mode w h. self w h;
  open_file_only = λ p flags mode w g h k. only w g h k;
  open_file_still = λ p flags mode w g h k. still w g h k;
  open_file_fresh = λ p flags mode w g h k. fresh w g h k;
  close_self = close_self;
  close_other = close_other;
  entry_info_keeps = λ e w g. refl;
  chmod_keeps = λ p m w g. refl;
  chown_keeps = λ p u i w g. refl;
  link_keeps = λ p q w g. refl;
  lstat_keeps = λ p w g. refl;
  mkdir_keeps = λ p m w g. refl;
  read_dir_keeps = λ p w g. refl;
  readlink_keeps = λ p w g. refl;
  remove_keeps = λ p w g. refl;
  rename_keeps = λ p q w g. refl;
  symlink_keeps = λ p q w g. refl;
  truncate_keeps = λ p n w g. refl;
  utimes_nano_keeps = λ p a m w g. refl;
  read_at_keeps = λ f n o w g. refl;
  seek_keeps = λ f o n w g. refl;
  write_at_keeps = λ f b o w g. refl;
  stat_keeps = λ f w g. refl;
  sync_keeps = λ f w g. refl;
}

pub none_held : (w : Slot) (f : ℕ) → w.opened ≡ none → one_file_open_files.is_open w f ≡ false
unfolding one_file_open_files holds
none_held w f e = rw e
