-- ===== src/Satellite/Invariant/Frame.antt =====
-- What the accesses of the requests other than Open and Close leave as it is.
use dockerfuse.Base.{◌≡◌, refl, sym, ◌∙◌, subst, some}
use dockerfuse.Satellite.FileSystem.{FileSystem}
use dockerfuse.Satellite.Server.{Server}
use dockerfuse.Satellite.Table.{find}
use dockerfuse.Satellite.OpenFiles.{OpenFiles}
use dockerfuse.Satellite.Concurrent.Quiet.{QuietCalls}
use dockerfuse.Satellite.Invariant.Steps.{Mirrors}

-- The same table and the same open files.
pub record Unmoved {F : FileSystem} (L : OpenFiles F) (s t : Server F) : Type 0 where
  pub table : t.fds ≡ s.fds
  pub files : (g : F.File) → L.is_open t.world g ≡ L.is_open s.world g

module _ {F : FileSystem} (L : OpenFiles F) where
  pub Unmoved-refl : (s : Server F) → Unmoved L s s
  Unmoved-refl s = record { table = refl; files = λ g. refl }

  pub Unmoved-trans : {s t u : Server F} → Unmoved L s t → Unmoved L t u → Unmoved L s u
  Unmoved-trans p q = record { table = q.table ∙ p.table; files = λ g. q.files g ∙ p.files g }

  pub Mirrors-Unmoved : {s t : Server F} → Unmoved L s t → Mirrors L s → Mirrors L t
  Mirrors-Unmoved {s} {t} p v = record {
    listed = λ f h. rw p.table (v.listed f (sym (p.files f) ∙ h));
    live = λ k f h.
        let (alive, own) = v.live k f (subst (λ m. find m k ≡ some f) p.table h) in
        (p.files f ∙ alive, own);
  }

  abbrev call_Unmoved :
      (s : Server F) (w : F.World)
      → ((g : F.File) → L.is_open w g ≡ L.is_open s.world g)
      → Unmoved L s (record s { world = w })
  call_Unmoved s w same = record { table = refl; files = same }

  pub quiet_calls : QuietCalls F (Unmoved L)
  quiet_calls = record {
    stay = Unmoved-refl;
    entry_info = λ e s. call_Unmoved s _ (L.entry_info_keeps e s.world);
    chmod = λ p m s. call_Unmoved s _ (L.chmod_keeps p m s.world);
    chown = λ p u g s. call_Unmoved s _ (L.chown_keeps p u g s.world);
    link = λ p q s. call_Unmoved s _ (L.link_keeps p q s.world);
    lstat = λ p s. call_Unmoved s _ (L.lstat_keeps p s.world);
    mkdir = λ p m s. call_Unmoved s _ (L.mkdir_keeps p m s.world);
    read_dir = λ p s. call_Unmoved s _ (L.read_dir_keeps p s.world);
    readlink = λ p s. call_Unmoved s _ (L.readlink_keeps p s.world);
    remove = λ p s. call_Unmoved s _ (L.remove_keeps p s.world);
    rename = λ p q s. call_Unmoved s _ (L.rename_keeps p q s.world);
    symlink = λ p q s. call_Unmoved s _ (L.symlink_keeps p q s.world);
    truncate = λ p n s. call_Unmoved s _ (L.truncate_keeps p n s.world);
    utimes_nano = λ p a m s. call_Unmoved s _ (L.utimes_nano_keeps p a m s.world);
    read_at = λ f n o s. call_Unmoved s _ (L.read_at_keeps f n o s.world);
    seek = λ f o n s. call_Unmoved s _ (L.seek_keeps f o n s.world);
    write_at = λ f b o s. call_Unmoved s _ (L.write_at_keeps f b o s.world);
    stat = λ f s. call_Unmoved s _ (L.stat_keeps f s.world);
    sync = λ f s. call_Unmoved s _ (L.sync_keeps f s.world);
  }
