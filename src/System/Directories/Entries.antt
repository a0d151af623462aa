-- ===== src/System/Directories/Entries.antt =====
-- What a directory is listed as, told from the answers of Info alone.
use dockerfuse.Base.{
  ◌≡◌, refl, subst, sym, ◌<◌, ◌≤◌, ◌%◌, ◌^◌, true, Option, none, some, List, [], ◌∷◌, ==_iff, arith,
}
use dockerfuse.Os.{Os}
use dockerfuse.Os.Errno.{ErrorName, errno}
use dockerfuse.RpcCommon.Error.{
  errno_cause, not_exist_cause, other_cause, GoError, path_error, link_error, syscall_errno,
  not_exist, other,
}
use dockerfuse.RpcCommon.Types.{DirEntry}
use dockerfuse.Satellite.FileSystem.{FileSystem, Stat, done, raise}
use dockerfuse.Satellite.Paths.{is_not_exist}

-- The errors that say that a file is gone: fs.ErrNotExist and ENOENT, also in a path or link error.
pub data Gone (os : Os) : GoError → Type 0 where
  sentinel : Gone os not_exist
  path_sentinel : Gone os (path_error not_exist_cause)
  link_sentinel : Gone os (link_error not_exist_cause)
  number : Gone os (syscall_errno (errno os ErrorName.enoent))
  path_number : Gone os (path_error (errno_cause (errno os ErrorName.enoent)))
  link_number : Gone os (link_error (errno_cause (errno os ErrorName.enoent)))

pub Gone-is_not_exist : (os : Os) (g : GoError) → Gone os g → is_not_exist os g ≡ true
unfolding is_not_exist
Gone-is_not_exist os _ sentinel = refl
Gone-is_not_exist os _ path_sentinel = refl
Gone-is_not_exist os _ link_sentinel = refl
Gone-is_not_exist os _ number = ground arith
Gone-is_not_exist os _ path_number = ground arith
Gone-is_not_exist os _ link_number = ground arith

pub is_not_exist-Gone : (os : Os) (g : GoError) → is_not_exist os g ≡ true → Gone os g
unfolding is_not_exist
is_not_exist-Gone os (path_error (errno_cause n)) e =
    subst (λ k. Gone os (path_error (errno_cause k))) (sym ((==_iff n _).0 e)) path_number
is_not_exist-Gone os (path_error not_exist_cause) e = path_sentinel
is_not_exist-Gone os (path_error (other_cause t)) e = absurd (cc)
is_not_exist-Gone os (link_error (errno_cause n)) e =
    subst (λ k. Gone os (link_error (errno_cause k))) (sym ((==_iff n _).0 e)) link_number
is_not_exist-Gone os (link_error not_exist_cause) e = link_sentinel
is_not_exist-Gone os (link_error (other_cause t)) e = absurd (cc)
is_not_exist-Gone os (syscall_errno n) e =
    subst (λ k. Gone os (syscall_errno k)) (sym ((==_iff n _).0 e)) number
is_not_exist-Gone os not_exist e = sentinel
is_not_exist-Gone os (other t) e = absurd (cc)

abbrev pub with_entry : DirEntry → Option (List DirEntry) → Option (List DirEntry)
with_entry entry none = none
with_entry entry (some entries) = some (entry ∷ entries)

-- The calls of Info on a directory's files, in order, and what they make of it. A file is shown under
-- its name with the mode and the inode that Info gives; it is hidden if the inode is 0, 1 or 2, and
-- passed over if it is gone. Any other error of Info is the last call, and leaves nothing.
pub data Listing (F : FileSystem) (os : Os)
    : List F.Entry → F.World → Option (List DirEntry) → F.World → Type 0 where
  end : {w : F.World} → Listing F os [] w (some []) w
  shown :
      {file : F.Entry} {files : List F.Entry} {w w1 w2 : F.World} {sys : Stat}
      {rest : Option (List DirEntry)}
      → F.entry_info file w ≡ (done sys, w1)
      → 2 < sys.ino
      → Listing F os files w1 rest w2
      → Listing F os
          (file ∷ files)
          w
          (with_entry
            (record { mode = sys.mode % 2 ^ 32; name = F.entry_name file; ino = sys.ino })
            rest)
          w2
  hidden :
      {file : F.Entry} {files : List F.Entry} {w w1 w2 : F.World} {sys : Stat}
      {rest : Option (List DirEntry)}
      → F.entry_info file w ≡ (done sys, w1)
      → sys.ino ≤ 2
      → Listing F os files w1 rest w2
      → Listing F os (file ∷ files) w rest w2
  removed :
      {file : F.Entry} {files : List F.Entry} {w w1 w2 : F.World} {e : GoError}
      {rest : Option (List DirEntry)}
      → F.entry_info file w ≡ (raise e, w1)
      → Gone os e
      → Listing F os files w1 rest w2
      → Listing F os (file ∷ files) w rest w2
  refused :
      {file : F.Entry} {files : List F.Entry} {w w1 : F.World} {e : GoError}
      → F.entry_info file w ≡ (raise e, w1)
      → ¬ Gone os e
      → Listing F os (file ∷ files) w none w1
