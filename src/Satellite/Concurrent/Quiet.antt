-- ===== src/Satellite/Concurrent/Quiet.antt =====
-- The requests other than Open and Close only read the table: each access is one call of the operating
-- system at most.
use dockerfuse.Base.{ℕ, ◌≡◌, refl, Bool, true, false, List, [], ◌∷◌, ◌||◌, if◌then◌else◌, arith}
use dockerfuse.Base.Int.{ℤ, pos, negsuc, to_i64}
use dockerfuse.Os.{Os}
use dockerfuse.RpcCommon.Types.{DirEntry, OpenRequest, ReadRequest, StatRequest}
use dockerfuse.RpcCommon.SetAttr.{
  SetAttrRequest, get_mode, get_uid, get_gid, get_a_time, get_m_time, get_size,
}
use dockerfuse.Satellite.FileSystem.{FileSystem, Timespec}
use dockerfuse.Satellite.Server.{Server, Handler, pure}
use dockerfuse.Satellite.Paths.{file_info}
use dockerfuse.Satellite.Descriptors.{read_file}
use dockerfuse.Satellite.Attributes.{
  set_mode_of, set_owner_of, set_times_of, set_size_of, owner_of, timespec_of,
}
use dockerfuse.Satellite.Dispatch.{
  Method, stat, read_dir, open_path, close, read, seek, write, unlink, fsync, mkdir, rmdir, rename,
  readlink, link, symlink, set_attr,
}
use dockerfuse.Satellite.Concurrent.Courses.{
  stat_course, entries_course, read_dir_course, describe_course, file_course, mkdir_course,
  set_attr_course, course,
}
use dockerfuse.Satellite.Concurrent.Within.{
  Within, Steps, Along, Within-finish, Within-atomic, Within->>=, Within-then, Within-after,
  Steps-attempt, Steps-attempt_or, Steps-pure, Steps-open_file_of,
}

-- Open and Close are the requests that change the table.
unfoldable pub opens_or_closes : {A : Type 0} → Method A → Bool
opens_or_closes (open_path r) = true
opens_or_closes (close r) = true
opens_or_closes _ = false

-- The calls that the other handlers make are steps of `R`.
pub record QuietCalls (F : FileSystem) (R : Server F → Server F → Type 0) : Type 0 where
  pub stay : (s : Server F) → R s s
  pub entry_info : (e : F.Entry) → Along R (F.entry_info e)
  pub chmod : (p : _) (m : ℕ) → Along R (F.chmod p m)
  pub chown : (p u g : _) → Along R (F.chown p u g)
  pub link : (p q : _) → Along R (F.link p q)
  pub lstat : (p : _) → Along R (F.lstat p)
  pub mkdir : (p : _) (m : ℕ) → Along R (F.mkdir p m)
  pub read_dir : (p : _) → Along R (F.read_dir p)
  pub readlink : (p : _) → Along R (F.readlink p)
  pub remove : (p : _) → Along R (F.remove p)
  pub rename : (p q : _) → Along R (F.rename p q)
  pub symlink : (p q : _) → Along R (F.symlink p q)
  pub truncate : (p n : _) → Along R (F.truncate p n)
  pub utimes_nano : (p a m : _) → Along R (F.utimes_nano p a m)
  pub read_at : (f : F.File) (n : ℕ) (o : _) → Along R (F.read_at f n o)
  pub seek : (f : F.File) (o n : _) → Along R (F.seek f o n)
  pub write_at : (f : F.File) (b o : _) → Along R (F.write_at f b o)
  pub stat : (f : F.File) → Along R (F.stat f)
  pub sync : (f : F.File) → Along R (F.sync f)

-- A relation that holds wherever only the world changes.
pub any_world :
    {F : FileSystem} (R : Server F → Server F → Type 0)
    → ((s : Server F) (w : F.World) → R s (record s { world = w }))
    → QuietCalls F R
any_world R h = record {
  stay = λ s. h s s.world;
  entry_info = λ e s. h s _;
  chmod = λ p m s. h s _;
  chown = λ p u g s. h s _;
  link = λ p q s. h s _;
  lstat = λ p s. h s _;
  mkdir = λ p m s. h s _;
  read_dir = λ p s. h s _;
  readlink = λ p s. h s _;
  remove = λ p s. h s _;
  rename = λ p q s. h s _;
  symlink = λ p q s. h s _;
  truncate = λ p n s. h s _;
  utimes_nano = λ p a m s. h s _;
  read_at = λ f n o s. h s _;
  seek = λ f o n s. h s _;
  write_at = λ f b o s. h s _;
  stat = λ f s. h s _;
  sync = λ f s. h s _;
}

-- The rules for a `do` block.
ruleset within_rules = (
  Within-finish, Within-atomic, Within-then, Within-after, Steps-attempt, Steps-attempt_or,
  Steps-open_file_of,
)

module _ {F : FileSystem} (R : Server F → Server F → Type 0) (Q : QuietCalls F R) (os : Os) where
  pub Within-stat : (r : StatRequest) → Within R (stat_course F os r)
  unfolding stat_course
  Within-stat r = search (within_rules, Q.lstat, Q.readlink)

  Steps-file_info : (file : F.Entry) → Steps R (file_info F os file)
  unfolding file_info
  Steps-file_info file s =
      let w : F.World = (F.entry_info file s.world).1 in
      let e : (file_info F os file s).1 ≡ record { fds = s.fds; world = w } = ground arith in
      rw e (Q.entry_info file s)

  Within-entries :
      (files : List F.Entry) (entries : List DirEntry)
      → Within R (entries_course F os files entries)
  unfolding entries_course
  Within-entries [] entries = Within-finish R _
  Within-entries (file ∷ files) entries =
      Within-then R _ _ (Steps-file_info file) λ info. Within-entries files _

  pub Within-describe : (r : OpenRequest) (file : F.File) → Within R (describe_course F os r file)
  unfolding describe_course
  Within-describe r file = search (within_rules, Q.stat, Q.readlink)

  read_outcome :
      (r : ReadRequest) (file : F.File) (s : Server F) (num : ℤ)
      → r.num ≡ num
      → R s (read_file F os r file s).1
  unfolding read_file
  read_outcome r file s (negsuc n) e = rw (e, read_file) (Q.stay s)
  read_outcome r file s (pos n) e = rw (e, read_file) (Q.read_at file n r.offset s)

  Steps-read_file : (r : ReadRequest) (file : F.File) → Steps R (read_file F os r file)
  Steps-read_file r file s = read_outcome r file s r.num refl

  step_if : (b : Bool) (m : Handler F (Unit {0})) → Steps R m → Steps R (if b then m else pure tt)
  step_if true m h = h
  step_if false m h = Steps-pure R Q.stay tt

  Steps-set_mode_of : (r : SetAttrRequest) → Steps R (set_mode_of F os r)
  unfolding set_mode_of
  Steps-set_mode_of r =
      step_if (get_mode r).1 _ (Steps-attempt R os _ (Q.chmod r.full_path (get_mode r).0))

  Steps-set_owner_of : (r : SetAttrRequest) → Steps R (set_owner_of F os r)
  unfolding set_owner_of
  Steps-set_owner_of r =
      let u : ℤ = owner_of (get_uid r) in
      let g : ℤ = owner_of (get_gid r) in
      step_if ((get_uid r).1 || (get_gid r).1) _ (Steps-attempt R os _ (Q.chown r.full_path u g))

  Steps-set_times_of : (r : SetAttrRequest) → Steps R (set_times_of F os r)
  unfolding set_times_of
  Steps-set_times_of r =
      let a : Timespec = timespec_of (get_a_time r) in
      let m : Timespec = timespec_of (get_m_time r) in
      step_if ((get_m_time r).1 || (get_a_time r).1) _
        (Steps-attempt R os _ (Q.utimes_nano r.full_path a m))

  Steps-set_size_of : (r : SetAttrRequest) → Steps R (set_size_of F os r)
  unfolding set_size_of
  Steps-set_size_of r =
      let n : ℤ = to_i64 (get_size r).0 in
      step_if (get_size r).1 _ (Steps-attempt R os _ (Q.truncate r.full_path n))

  Within-set_attr : (r : SetAttrRequest) → Within R (set_attr_course F os r)
  unfolding set_attr_course
  Within-set_attr r =
      search
        (
          within_rules, Within-stat, Steps-set_mode_of, Steps-set_owner_of, Steps-set_times_of,
          Steps-set_size_of,
        )
        depth 7

  pub Within-quiet :
      {A : Type 0} (m : Method A) → opens_or_closes m ≡ false → Within R (course F os m)
  unfolding course read_dir_course mkdir_course file_course opens_or_closes
  Within-quiet (stat r) e = Within-stat r
  Within-quiet (read_dir r) e =
      Within-then R _ _ (Steps-attempt R os _ (Q.read_dir r.full_path))
        λ files. Within->>= R _ _ (Within-entries files []) λ entries. Within-finish R _
  Within-quiet (open_path r) e = absurd (cc)
  Within-quiet (close r) e = absurd (cc)
  Within-quiet (read r) e = search (within_rules, Q.stay, Steps-read_file)
  Within-quiet (seek r) e = search (within_rules, Q.stay, Q.seek)
  Within-quiet (write r) e = search (within_rules, Q.stay, Q.write_at)
  Within-quiet (unlink r) e = search (within_rules, Q.remove)
  Within-quiet (fsync r) e = search (within_rules, Q.stay, Q.sync)
  Within-quiet (mkdir r) e = search (within_rules, Q.mkdir, Within-stat)
  Within-quiet (rmdir r) e = search (within_rules, Q.remove)
  Within-quiet (rename r) e = search (within_rules, Q.rename)
  Within-quiet (readlink r) e = search (within_rules, Q.readlink)
  Within-quiet (link r) e = search (within_rules, Q.link)
  Within-quiet (symlink r) e = search (within_rules, Q.symlink)
  Within-quiet (set_attr r) e = Within-set_attr r
