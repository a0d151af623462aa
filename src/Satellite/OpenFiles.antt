-- ===== src/Satellite/OpenFiles.antt =====
-- What the operating system promises about open files: which calls open and close them. These are
-- the hypotheses of the theorems on descriptors.
use dockerfuse.Base.{ℕ, ◌≡◌, ◌≢◌, ◌⊎◌, Bool, true, false}
use dockerfuse.Satellite.FileSystem.{FileSystem, done, raise}

-- A call that opens and closes no file.
abbrev pub Keeps :
    (F : FileSystem) → (F.World → F.File → Bool) → {A : Type 0} → (F.World → A × F.World) → Type 0
Keeps F is_open call = (w : F.World) (g : F.File) → is_open (call w).1 g ≡ is_open w g

pub record OpenFiles (F : FileSystem) : Type 0 where
  pub is_open : F.World → F.File → Bool
  -- A new file has a number that no open file has; a failed call opens nothing.
  pub open_file_fails :
      (p : _) (flags mode : ℕ) (w : F.World) (g : F.File) {e : _}
      → (F.open_file p flags mode w).0 ≡ raise e
      → is_open (F.open_file p flags mode w).1 g ≡ is_open w g
  pub open_file_self :
      (p : _) (flags mode : ℕ) (w : F.World) {f : F.File}
      → (F.open_file p flags mode w).0 ≡ done f
      → is_open (F.open_file p flags mode w).1 f ≡ true
  pub open_file_only :
      (p : _) (flags mode : ℕ) (w : F.World) {f : F.File} (g : F.File)
      → (F.open_file p flags mode w).0 ≡ done f
      → is_open (F.open_file p flags mode w).1 g ≡ true
      → (g ≡ f) ⊎ (is_open w g ≡ true)
  pub open_file_still :
      (p : _) (flags mode : ℕ) (w : F.World) {f : F.File} (g : F.File)
      → (F.open_file p flags mode w).0 ≡ done f
      → is_open w g ≡ true
      → is_open (F.open_file p flags mode w).1 g ≡ true
  pub open_file_fresh :
      (p : _) (flags mode : ℕ) (w : F.World) {f : F.File} (g : F.File)
      → (F.open_file p flags mode w).0 ≡ done f
      → is_open w g ≡ true
      → F.fd g ≢ F.fd f
  -- Close gives the descriptor back even where it reports an error.
  pub close_self : (f : F.File) (w : F.World) → is_open (F.close f w).1 f ≡ false
  pub close_other :
      (f : F.File) (w : F.World) (g : F.File) → g ≢ f → is_open (F.close f w).1 g ≡ is_open w g
  pub entry_info_keeps : (e : F.Entry) → Keeps F is_open (F.entry_info e)
  pub chmod_keeps : (p : _) (m : ℕ) → Keeps F is_open (F.chmod p m)
  pub chown_keeps : (p u g : _) → Keeps F is_open (F.chown p u g)
  pub link_keeps : (p q : _) → Keeps F is_open (F.link p q)
  pub lstat_keeps : (p : _) → Keeps F is_open (F.lstat p)
  pub mkdir_keeps : (p : _) (m : ℕ) → Keeps F is_open (F.mkdir p m)
  pub read_dir_keeps : (p : _) → Keeps F is_open (F.read_dir p)
  pub readlink_keeps : (p : _) → Keeps F is_open (F.readlink p)
  pub remove_keeps : (p : _) → Keeps F is_open (F.remove p)
  pub rename_keeps : (p q : _) → Keeps F is_open (F.rename p q)
  pub symlink_keeps : (p q : _) → Keeps F is_open (F.symlink p q)
  pub truncate_keeps : (p n : _) → Keeps F is_open (F.truncate p n)
  pub utimes_nano_keeps : (p a m : _) → Keeps F is_open (F.utimes_nano p a m)
  pub read_at_keeps : (f : F.File) (n : ℕ) (o : _) → Keeps F is_open (F.read_at f n o)
  pub seek_keeps : (f : F.File) (o n : _) → Keeps F is_open (F.seek f o n)
  pub write_at_keeps : (f : F.File) (b o : _) → Keeps F is_open (F.write_at f b o)
  pub stat_keeps : (f : F.File) → Keeps F is_open (F.stat f)
  pub sync_keeps : (f : F.File) → Keeps F is_open (F.sync f)
