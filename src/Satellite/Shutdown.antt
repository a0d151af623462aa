-- ===== src/Satellite/Shutdown.antt =====
-- A run of the satellite from its start, and CloseAllFDs at its end (cmd/satellite/main.go,
-- shutdown).
use dockerfuse.Base.{
  ℕ, ◌≡◌, refl, sym, ◌∙◌, ◌≢◌, true, false, Option, none, some, [], ◌∷◌, arith, Bool-cases, inl,
  inr, ◌==◌,
}
use dockerfuse.Os.{Os}
use dockerfuse.Satellite.FileSystem.{FileSystem}
use dockerfuse.Satellite.Table.{Table, find, find-remove}
use dockerfuse.Satellite.Server.{
  Server, new_docker_fuse_fs_ops, close_each, close_all_fds, RangesOver,
}
use dockerfuse.Satellite.OpenFiles.{OpenFiles}
use dockerfuse.Satellite.Dispatch.{Method, dispatch}
use dockerfuse.Satellite.Invariant.{Mirrors, dispatch-Mirrors}

-- The states that requests lead to.
pub data Run (F : FileSystem) (os : Os) (s : Server F) : Server F → Type 1 where
  start : Run F os s s
  request :
      {t : Server F} {A : Type 0} → Run F os s t → (m : Method A) → Run F os s (dispatch F os m t).1

module _ {F : FileSystem} (L : OpenFiles F) (os : Os) where
  pub new_docker_fuse_fs_ops-Mirrors :
      (w : F.World)
      → ((f : F.File) → L.is_open w f ≡ false)
      → Mirrors L (new_docker_fuse_fs_ops F w)
  unfolding new_docker_fuse_fs_ops find
  new_docker_fuse_fs_ops-Mirrors w nothing = record {
    listed = λ f h. absurd (false-true (sym (nothing f) ∙ h));
    live = λ k f h. absurd (none-some h);
  }
    where
      false-true : ¬ (false ≡ true)
      false-true e = cc

      none-some : {f : F.File} → ¬ (none ≡ some f)
      none-some e = cc

  -- In a system that keeps the promises of OpenFiles, if no file is open at the start, then after
  -- any sequence of requests the table lists exactly the open files, so that no file is leaked and
  -- no closed one is kept.
  pub Run-Mirrors :
      (w : F.World) (t : Server F)
      → ((f : F.File) → L.is_open w f ≡ false)
      → Run F os (new_docker_fuse_fs_ops F w) t
      → Mirrors L t
  Run-Mirrors w _ nothing start = new_docker_fuse_fs_ops-Mirrors w nothing
  Run-Mirrors w _ nothing (request {t} run m) =
      dispatch-Mirrors L os m t (Run-Mirrors w t nothing run)

  -- Closing files opens none.
  close-closed :
      (f g : F.File) (w : F.World) → L.is_open w g ≡ false → L.is_open (F.close f w).1 g ≡ false
  close-closed f g w closed = elim (Bool-cases (L.is_open (F.close f w).1 g)) [
    | inl reopened ↦ absurd (same_file reopened)
    | inr still_closed ↦ still_closed
  ]
    where
      differ : L.is_open (F.close f w).1 g ≡ true → g ≢ f
      differ reopened e = ground (arith, L.close_self f w)

      same_file : L.is_open (F.close f w).1 g ≡ true → ⊥
      same_file reopened = ground (arith, L.close_other f w g (differ reopened))

  close_each-closed :
      (order : Table F.File) (g : F.File) (s : Server F)
      → L.is_open s.world g ≡ false
      → L.is_open (close_each F order s).world g ≡ false
  unfolding close_each
  close_each-closed [] g s closed = closed
  close_each-closed ((k, f) ∷ order) g s closed =
      close_each-closed order g _ (close-closed f g s.world closed)

  close_each-found :
      (order : Table F.File) (k : ℕ) (g : F.File) (s : Server F)
      → find order k ≡ some g
      → L.is_open (close_each F order s).world g ≡ false
  unfolding close_each find
  close_each-found [] k g s found = absurd (cc)
  close_each-found ((j, f) ∷ order) k g s found = elim (Bool-cases (j == k)) [
    | inl here ↦ close_each-closed order g _ (ground (arith, L.close_self f s.world))
    | inr later ↦ close_each-found order k g _ (ground arith)
  ]

  -- An entry that the loop meets is gone after it, and none comes back.
  close_each-none :
      (order : Table F.File) (k : ℕ) (s : Server F)
      → find s.fds k ≡ none
      → find (close_each F order s).fds k ≡ none
  unfolding close_each
  close_each-none [] k s gone = gone
  close_each-none ((j, f) ∷ order) k s gone =
      close_each-none order k _ (rw find-remove (ground arith))

  close_each-gone :
      (order : Table F.File) (k : ℕ) (g : F.File) (s : Server F)
      → find order k ≡ some g
      → find (close_each F order s).fds k ≡ none
  unfolding close_each find
  close_each-gone [] k g s found = absurd (cc)
  close_each-gone ((j, f) ∷ order) k g s found = elim (Bool-cases (j == k)) [
    | inl here ↦ close_each-none order k _ (rw find-remove (ground arith))
    | inr later ↦ close_each-gone order k g _ (ground arith)
  ]

  all_gone :
      (order : Table F.File) (k : ℕ) (s : Server F)
      → RangesOver order s.fds
      → (o : Option F.File) → find s.fds k ≡ o
      → find (close_each F order s).fds k ≡ none
  unfolding RangesOver
  all_gone order k s ranges none e = close_each-none order k s e
  all_gone order k s ranges (some g) e = close_each-gone order k g s (ranges k ∙ e)

  -- In whatever order CloseAllFDs goes over the table, if that lists exactly the open files, it leaves
  -- an empty table and no open file.
  pub close_all_fds-closed :
      (order : Table F.File) (s : Server F)
      → RangesOver order s.fds
      → Mirrors L s
      → ((k : ℕ) → find (close_all_fds F order s).fds k ≡ none)
        × ((f : F.File) → L.is_open (close_all_fds F order s).world f ≡ false)
  unfolding close_all_fds RangesOver
  close_all_fds-closed order s ranges v = (
    λ k. all_gone order k s ranges (find s.fds k) refl,
    λ f. elim (Bool-cases (L.is_open s.world f)) [
      | inl opened ↦ close_each-found order (F.fd f) f s (ranges (F.fd f) ∙ v.listed f opened)
      | inr closed ↦ close_each-closed order f s closed
    ],
  )
