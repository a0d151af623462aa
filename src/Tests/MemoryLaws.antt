-- ===== src/Tests/MemoryLaws.antt =====
-- The file system in memory keeps the promises about open files.
use dockerfuse.Base.{
  ℕ, ◌≡◌, refl, ◌≢◌, ◌≤◌, ◌⊎◌, Bool, true, false, List, [], ◌∷◌, ◌+◌, ◌*◌, ◌%◌, arith,
}
use dockerfuse.Base.Bits.{has}
use dockerfuse.Base.Int.{ℤ, pos, negsuc}
use dockerfuse.Base.Text.{Text}
use dockerfuse.Os.{Os}
use dockerfuse.Os.Flags.{open_flag, append}
use dockerfuse.RpcCommon.Error.{GoError}
use dockerfuse.Satellite.FileSystem.{done, raise}
use dockerfuse.Satellite.OpenFiles.{OpenFiles}
use dockerfuse.System.Append.{RefusesAppend}
use dockerfuse.Tests.Memory.{
  Disk, member, without, total, fresh, open_on, write_on, read_on, memory,
}

member-without_self : (k : ℕ) (js : List ℕ) → member k (without k js) ≡ false
unfolding member without
member-without_self k [] = refl
member-without_self k (j ∷ js) = ground (arith, member-without_self k js)

member-without_other : (k j : ℕ) (js : List ℕ) → j ≢ k → member j (without k js) ≡ member j js
unfolding member without
member-without_other k j [] h = refl
member-without_other k j (i ∷ js) h = ground (arith, member-without_other k j js h)

member-total : (k : ℕ) (js : List ℕ) → member k js ≡ true → k ≤ total js
unfolding member total
member-total k [] h = absurd (cc)
member-total k (j ∷ js) h = ground (arith, member-total k js)

fresh-unused : (b : Bool) (k : ℕ) (js : List ℕ) → member k js ≡ true → k ≢ fresh b js
unfolding fresh
fresh-unused true k js h e = absurd (omega (arith, member-total k js h))
fresh-unused false k js h e = absurd (omega (arith, member-total k js h))

module _ (os : Os) where
  abbrev is_open : Disk → ℕ → Bool
  is_open d k = member k d.open_numbers

  fails :
      (p : Text) (flags g : ℕ) (d : Disk) {e : GoError}
      → (open_on os flags p d).0 ≡ raise e
      → is_open (open_on os flags p d).1 g ≡ is_open d g
  unfolding open_on member
  fails p flags g d h = ground arith

  self :
      (p : Text) (flags : ℕ) (d : Disk) {f : ℕ}
      → (open_on os flags p d).0 ≡ done f
      → is_open (open_on os flags p d).1 f ≡ true
  unfolding open_on member
  self p flags d h = ground arith

  only :
      (p : Text) (flags : ℕ) (d : Disk) {f : ℕ} (g : ℕ)
      → (open_on os flags p d).0 ≡ done f
      → is_open (open_on os flags p d).1 g ≡ true
      → (g ≡ f) ⊎ (is_open d g ≡ true)
  unfolding open_on member
  only p flags d g h k = ground arith

  still :
      (p : Text) (flags : ℕ) (d : Disk) {f : ℕ} (g : ℕ)
      → (open_on os flags p d).0 ≡ done f
      → is_open d g ≡ true
      → is_open (open_on os flags p d).1 g ≡ true
  unfolding open_on member
  still p flags d g h k = ground arith

  new_number :
      (p : Text) (flags : ℕ) (d : Disk) {f : ℕ} (g : ℕ)
      → (open_on os flags p d).0 ≡ done f
      → is_open d g ≡ true
      → g ≢ f
  unfolding open_on
  new_number p flags d g h k e =
      ground (arith, fresh-unused (has flags (open_flag os append)) g d.open_numbers k)

  write_keeps :
      (k : ℕ) (bytes : List ℕ) (offset : ℤ) (d : Disk) (g : ℕ)
      → is_open (write_on os k bytes offset d).1 g ≡ is_open d g
  unfolding write_on
  write_keeps k bytes offset d g = ground arith

  read_keeps :
      (n : ℕ) (offset : ℤ) (d : Disk) (g : ℕ) → is_open (read_on os n offset d).1 g ≡ is_open d g
  unfolding read_on
  read_keeps n (negsuc _) d g = refl
  read_keeps n (pos o) d g = refl

  pub memory_open_files : OpenFiles (memory os)
  memory_open_files = record {
    is_open = is_open;
    open_file_fails = λ p flags mode w g h. fails p flags g w h;
    open_file_self = λ p flags mode w h. self p flags w h;
    open_file_only = λ p flags mode w g h k. only p flags w g h k;
    open_file_still = λ p flags mode w g h k. still p flags w g h k;
    open_file_fresh = λ p flags mode w g h k. new_number p flags w g h k;
    close_self = λ f w. member-without_self f w.open_numbers;
    close_other = λ f w g h. member-without_other f g w.open_numbers h;
    entry_info_keeps = λ e w g. refl;
    chmod_keeps = λ p m w g. refl;
    chown_keeps = λ p u i w g. refl;
    link_keeps = λ p q w g. refl;
    lstat_keeps = λ p w g. refl;
    mkdir_keeps = λ p m w g. refl;
    read_dir_keeps = λ p w g. refl;
    readlink_keeps = λ p w g. refl;
    remove_keeps = λ p w g. refl;
    rename_keeps = λ p q w g. refl;
    symlink_keeps = λ p q w g. refl;
    truncate_keeps = λ p n w g. refl;
    utimes_nano_keeps = λ p a m w g. refl;
    read_at_keeps = λ f n o w g. read_keeps n o w g;
    seek_keeps = λ f o n w g. refl;
    write_at_keeps = λ f b o w g. write_keeps f b o w g;
    stat_keeps = λ f w g. refl;
    sync_keeps = λ f w g. refl;
  }

  odd : (n : ℕ) → ((2 * n + 1) % 2) ≡ 1
  odd n = omega arith

  pub memory-RefusesAppend : RefusesAppend (memory os) os
  unfolding open_on write_on fresh
  memory-RefusesAppend p flags mode w f appending opened bytes offset w' =
      ground (arith, odd (1 + total w.open_numbers))

  pub nothing_open :
      (d : Disk) (f : ℕ) → d.open_numbers ≡ [] → memory_open_files.is_open d f ≡ false
  unfolding memory_open_files member
  nothing_open d f e = rw e
