-- ===== src/Satellite/Invariant/Steps.antt =====
-- The invariant, and the steps that keep it.
use dockerfuse.Base.{
  ℕ, ◌≡◌, sym, ◌∙◌, ◌≢◌, ◌⊎◌, true, false, none, some, arith, ◌==◌, if◌then◌else◌, inl, inr,
}
use dockerfuse.Satellite.FileSystem.{FileSystem}
use dockerfuse.Satellite.Table.{find, store, remove, find-store, find-remove}
use dockerfuse.Satellite.Server.{Server}
use dockerfuse.Satellite.OpenFiles.{OpenFiles}

-- Every open file of the process is in the table under its number, and what the table holds is open
-- and stands under its own number.
pub record Mirrors {F : FileSystem} (L : OpenFiles F) (s : Server F) : Type 0 where
  pub listed : (f : F.File) → L.is_open s.world f ≡ true → find s.fds (F.fd f) ≡ some f
  pub live :
      (k : ℕ) (f : F.File) → find s.fds k ≡ some f → (L.is_open s.world f ≡ true) × (F.fd f ≡ k)

module _ {F : FileSystem} (L : OpenFiles F) where
  -- A change of the world that opens and closes nothing.
  pub Mirrors-world :
      (s : Server F) (w : F.World)
      → ((g : F.File) → L.is_open w g ≡ L.is_open s.world g)
      → Mirrors L s
      → Mirrors L (record s { world = w })
  Mirrors-world s w same v = record {
    listed = λ f h. v.listed f (sym (same f) ∙ h);
    live = λ k f h. (same f ∙ (v.live k f h).0, (v.live k f h).1);
  }

  registered_live :
      (s : Server F) (w : F.World) (f : F.File) (k : ℕ) (g : F.File)
      → L.is_open w f ≡ true
      → ((g : F.File) → L.is_open s.world g ≡ true → L.is_open w g ≡ true)
      → Mirrors L s
      → (if k == F.fd f then some f else find s.fds k) ≡ some g
      → (L.is_open w g ≡ true) × (F.fd g ≡ k)
  registered_live s w f k g opened still v h = ground (arith, v.live k g, still g)

  unregistered_listed :
      (s : Server F) (w : F.World) (f : F.File) (k : ℕ) (g : F.File)
      → find s.fds k ≡ some f
      → L.is_open w f ≡ false
      → ((g : F.File) → g ≢ f → L.is_open w g ≡ L.is_open s.world g)
      → Mirrors L s
      → L.is_open w g ≡ true
      → find (remove s.fds k) (F.fd g) ≡ some g
  unregistered_listed s w f k g found closed others v h =
      let old : L.is_open s.world g ≡ true = sym (others g (λ same. cc)) ∙ h in
      rw find-remove (ground (arith, v.listed g old, v.live k f found))

  unregistered_live :
      (s : Server F) (w : F.World) (f : F.File) (k j : ℕ) (g : F.File)
      → find s.fds k ≡ some f
      → ((g : F.File) → g ≢ f → L.is_open w g ≡ L.is_open s.world g)
      → Mirrors L s
      → (if j == k then none else find s.fds j) ≡ some g
      → (L.is_open w g ≡ true) × (F.fd g ≡ j)
  unregistered_live s w f k j g found others v h =
      ground (arith, v.live j g, v.live k f found, others g)

  -- What a successful open(2) and the registration of its file leave.
  pub Mirrors-register :
      (s : Server F) (w : F.World) (f : F.File)
      → L.is_open w f ≡ true
      → ((g : F.File) → L.is_open w g ≡ true → (g ≡ f) ⊎ (L.is_open s.world g ≡ true))
      → ((g : F.File) → L.is_open s.world g ≡ true → L.is_open w g ≡ true)
      → ((g : F.File) → L.is_open s.world g ≡ true → F.fd g ≢ F.fd f)
      → Mirrors L s
      → Mirrors L (record { fds = store s.fds (F.fd f) f; world = w })
  Mirrors-register s w f opened only still fresh v = record {
    listed = λ g h. elim (only g h) [
      | inl same ↦ rw (same, find-store) (ground arith)
      | inr old ↦ rw find-store (ground (arith, fresh g old, v.listed g old))
    ];
    live = λ k g h. registered_live s w f k g opened still v (rw find-store at h);
  }

  -- What Close and the removal of its entry leave.
  pub Mirrors-unregister :
      (s : Server F) (w : F.World) (f : F.File) (k : ℕ)
      → find s.fds k ≡ some f
      → L.is_open w f ≡ false
      → ((g : F.File) → g ≢ f → L.is_open w g ≡ L.is_open s.world g)
      → Mirrors L s
      → Mirrors L (record { fds = remove s.fds k; world = w })
  Mirrors-unregister s w f k found closed others v = record {
    listed = λ g h. unregistered_listed s w f k g found closed others v h;
    live = λ j g h. unregistered_live s w f k j g found others v (rw find-remove at h);
  }
