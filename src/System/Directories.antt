-- ===== src/System/Directories.antt =====
-- Directories from the client's side: ReadDir of the satellite and readDir of the client.
pub mod Entries
use dockerfuse.Base.{
  append_nil, append_assoc, ◌≡◌, ◌≢◌, refl, sym, ◌∙◌, ap, Bool, true, false, Option, none, some,
  List, [], ◌∷◌, ◌++◌, arith, ltb, Bool-cases, inl, inr,
}
use dockerfuse.Base.Text.{Text}
use dockerfuse.Os.{Os}
use dockerfuse.Os.Errno.{ErrorName, errno}
use dockerfuse.RpcCommon.Error.{
  GoError, Result, return, fail, errno_text, errno_to_rpc_error_string,
}
use dockerfuse.RpcCommon.Types.{DirEntry}
use dockerfuse.Satellite.FileSystem.{FileSystem, Stat, Try, done, raise}
use dockerfuse.Satellite.Server.{Server, ◌>>=◌, pure, attempt, refuse}
use dockerfuse.Satellite.Server.Laws.{>>=-return, >>=-fail, attempt-done}
use dockerfuse.Satellite.Dispatch.{dispatch}
use dockerfuse.Satellite.Dispatch
use dockerfuse.Satellite.Paths
use dockerfuse.Satellite.Paths.{dir_entry, is_not_exist, file_info, read_entries}
use dockerfuse.Client.Rpc.{Client, Outcome, remote}
use dockerfuse.Client.Calls
use dockerfuse.Client.Calls.{listed_entries}
use dockerfuse.System.Link.{satellite_rpc, connected, call_then-return}
use dockerfuse.System.Errors.{named_error_arrives}
use dockerfuse.System.Directories.Entries.{
  Gone, Gone-is_not_exist, is_not_exist-Gone, with_entry, Listing, end, shown, hidden, removed,
  refused,
}

eio_named : ErrorName.eio ≢ ErrorName.eopnotsupp
eio_named e = ground arith

module _ (F : FileSystem) (os : Os) where
  file_info-done :
      (file : F.Entry) (s : Server F) (sys : Stat) (w : F.World)
      → F.entry_info file s.world ≡ (done sys, w)
      → file_info F os file s ≡ (return (some sys), record s { world = w })
  unfolding file_info
  file_info-done file s sys w e = ground arith

  file_info-removed :
      (file : F.Entry) (s : Server F) (err : GoError) (w : F.World)
      → F.entry_info file s.world ≡ (raise err, w)
      → is_not_exist os err ≡ true
      → file_info F os file s ≡ (return none, record s { world = w })
  unfolding file_info
  file_info-removed file s err w e gone = ground arith

  file_info-refused :
      (file : F.Entry) (s : Server F) (err : GoError) (w : F.World)
      → F.entry_info file s.world ≡ (raise err, w)
      → is_not_exist os err ≡ false
      → file_info F os file s
        ≡ (fail (errno_text os (errno os ErrorName.eio)), record s { world = w })
  unfolding file_info refuse errno_to_rpc_error_string
  file_info-refused file s err w e other = ground arith

  -- What the loop answers, with the entries before it.
  abbrev loop_answer : List DirEntry → Option (List DirEntry) → Result (List DirEntry)
  loop_answer entries none = fail (errno_text os (errno os ErrorName.eio))
  loop_answer entries (some found) = return (entries ++ found)

  abbrev filtered : Option (List DirEntry) → Option (List DirEntry)
  filtered none = none
  filtered (some found) = some (listed_entries found)

  loop_answer-with_entry :
      (entries : List DirEntry) (entry : DirEntry) (found : Option (List DirEntry))
      → loop_answer (entries ++ (entry ∷ [])) found ≡ loop_answer entries (with_entry entry found)
  loop_answer-with_entry entries entry none = refl
  loop_answer-with_entry entries entry (some found) = ap return (append_assoc entries _ found)

  -- What the loop over the files finds: all entries of the files that are not gone.
  record Found (s : Server F) (files : List F.Entry) (entries : List DirEntry) (w : F.World)
      : Type 0 where
    found : Option (List DirEntry)
    after : F.World
    listing : Listing F os files w (filtered found) after
    answer :
        read_entries F os files entries (record s { world = w })
        ≡ (loop_answer entries found, record s { world = after })

  entry-Listing :
      (file : F.Entry) (files : List F.Entry) (w w1 w2 : F.World) (sys : Stat)
      (found : Option (List DirEntry))
      → F.entry_info file w ≡ (done sys, w1)
      → Listing F os files w1 (filtered found) w2
      → Listing F os (file ∷ files) w (filtered (with_entry (dir_entry F os file sys) found)) w2
  unfolding listed_entries
  entry-Listing file files w w1 w2 sys none info l = elim (Bool-cases (ltb 2 sys.ino)) [
    | inl big ↦ shown info (ground arith) l
    | inr small ↦ hidden info (ground arith) l
  ]
  entry-Listing file files w w1 w2 sys (some found) info l = elim (Bool-cases (ltb 2 sys.ino)) [
    | inl big ↦ rw big (shown info (ground arith) l)
    | inr small ↦ rw small (hidden info (ground arith) l)
  ]

  not-Gone : {g : GoError} → is_not_exist os g ≡ false → ¬ Gone os g
  not-Gone {g} e h = let gone = Gone-is_not_exist os g h in cc

  entry_cases :
      (s : Server F) (file : F.Entry) (files : List F.Entry) (entries : List DirEntry) (w : F.World)
      → ((entries : List DirEntry) (w1 : F.World) → Found s files entries w1)
      → (r : Try Stat × F.World) → F.entry_info file w ≡ r
      → Found s (file ∷ files) entries w
  unfolding read_entries
  entry_cases s file files entries w rest (done sys, w1) e =
      let next = rest (entries ++ (dir_entry F os file sys ∷ [])) w1 in
      record {
        found = with_entry (dir_entry F os file sys) next.found;
        after = next.after;
        listing = entry-Listing file files w w1 next.after sys next.found e next.listing;
        answer =
            >>=-return (file_info F os file) _ (record s { world = w }) (record s { world = w1 }) _
              (file_info-done file _ sys _ e)
            ∙ next.answer
            ∙ ap (λ r. (r, record s { world = next.after }))
                (loop_answer-with_entry entries _ next.found);
      }
  entry_cases s file files entries w rest (raise g, w1) e = elim (Bool-cases (is_not_exist os g)) [
    | inl gone ↦
        let next = rest entries w1 in
        record {
          found = next.found;
          after = next.after;
          listing = removed e (is_not_exist-Gone os g gone) next.listing;
          answer =
              >>=-return (file_info F os file) _ (record s { world = w }) (record s { world = w1 })
                _ (file_info-removed file _ g _ e gone)
              ∙ next.answer;
        }
    | inr other ↦ record {
      found = none;
      after = w1;
      listing = refused e (not-Gone other);
      answer =
          >>=-fail (file_info F os file) _ (record s { world = w }) (record s { world = w1 }) _
            (file_info-refused file _ g _ e other);
    }
  ]

  every_Found :
      (s : Server F) (files : List F.Entry) (entries : List DirEntry) (w : F.World)
      → Found s files entries w
  unfolding read_entries pure listed_entries
  every_Found s [] entries w = record {
    found = some [];
    after = w;
    listing = end;
    answer = ap (λ l. (return l, record s { world = w })) (sym (append_nil entries));
  }
  every_Found s (file ∷ files) entries w =
      entry_cases s file files entries w (every_Found s files) (F.entry_info file w) refl

  read_dir-loop :
      (s : Server F) (p : Text) (files : List F.Entry) (w : F.World)
      → F.read_dir p s.world ≡ (done files, w)
      → dispatch F os (Dispatch.read_dir (record { full_path = p })) s
        ≡ (read_entries F os files [] >>= λ entries. pure (record { dir_entries = entries }))
            (record s { world = w })
  unfolding dispatch Paths.read_dir
  read_dir-loop s p files w e =
      >>=-return (attempt os (F.read_dir p)) _ s _ files
        (attempt-done os (F.read_dir p) s files w e)

module _ (F : FileSystem) (server_os client_os : Os) (c : Client (satellite_rpc F server_os))
    (s : Server F) where
  -- What the caller gets for a listing.
  abbrev pub listing_seen : Option (List DirEntry) → Outcome (List DirEntry)
  listing_seen none = Outcome.errno (errno client_os ErrorName.eio)
  listing_seen (some entries) = Outcome.done entries

  -- If the directory can be opened and read, readDir answers as the calls of Info on its files say,
  -- in their order: a file is listed under its name with the mode and inode that Info reports if
  -- the inode is above 2, left out if it is 2 or less, and left out if Info says by fs.ErrNotExist
  -- or ENOENT that it is gone; at the first other error of Info readDir answers EIO.
  pub read_dir_across :
      (p : Text) (files : List F.Entry) (w : F.World)
      → F.read_dir p s.world ≡ (done files, w)
      → (listing : Option (List DirEntry)) × (w2 : F.World) × Listing F server_os files w listing w2
        × (Calls.read_dir client_os p (connected F server_os c (some s))
            ≡ (listing_seen listing, connected F server_os c (some (record s { world = w2 }))))
  unfolding Calls.read_dir remote pure
  read_dir_across p files w e =
      let h = every_Found F server_os s files [] w in
      (filtered F server_os h.found, h.after, h.listing, arrives h.found h.after h.answer)
    where
      arrives :
          (found : Option (List DirEntry)) (w2 : F.World)
          → read_entries F server_os files [] (record s { world = w })
            ≡ (loop_answer F server_os [] found, record s { world = w2 })
          → Calls.read_dir client_os p (connected F server_os c (some s)) ≡ (
            listing_seen (filtered F server_os found),
            connected F server_os c (some (record s { world = w2 })),
          )
      arrives none w2 a =
          named_error_arrives F server_os client_os _ _ c s _ ErrorName.eio eio_named (
            read_dir-loop F server_os s p files w e
            ∙ >>=-fail (read_entries F server_os files []) _ _ _ _ a)
      arrives (some found) w2 a =
          call_then-return F server_os _ _ _ c s _ (record { dir_entries = found })
            (read_dir-loop F server_os s p files w e
              ∙ >>=-return (read_entries F server_os files []) _ _ (record s { world = w2 }) found
                  a)
