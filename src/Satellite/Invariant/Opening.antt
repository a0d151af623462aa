-- ===== src/Satellite/Invariant/Opening.antt =====
-- Open while other requests come in between: from open(2) on, one file is open that the table does not
-- list, until it is registered.
use dockerfuse.Base.{
  ℕ, ◌≡◌, sym, ◌∙◌, ◌≢◌, ◌⊎◌, subst, true, Option, none, Option-cases, inl, inr, ap,
}
use dockerfuse.Os.{Os}
use dockerfuse.RpcCommon.Error.{GoError}
use dockerfuse.RpcCommon.Flags.{sa_flags_to_system}
use dockerfuse.RpcCommon.Types.{OpenRequest}
use dockerfuse.Satellite.FileSystem.{FileSystem, done, raise}
use dockerfuse.Satellite.Table.{find, store}
use dockerfuse.Satellite.Server.{Server}
use dockerfuse.Satellite.Descriptors.{register}
use dockerfuse.Satellite.OpenFiles.{OpenFiles}
use dockerfuse.Satellite.Concurrent.{Course, ◌>>◌, ◌>>=◌, atomic}
use dockerfuse.Satellite.Concurrent.Courses.{open_course, look_up, close_found, describe_course}
use dockerfuse.Satellite.Concurrent.Quiet.{Within-describe}
use dockerfuse.Satellite.Invariant.Steps.{Mirrors, Mirrors-register, Mirrors-world}
use dockerfuse.Satellite.Invariant.Frame.{Unmoved, Mirrors-Unmoved, quiet_calls}
use dockerfuse.Satellite.Invariant.Rely.{Safe, Safe-then, Safe-attempt, Safe-quiet}

-- `f` has been opened since the world was `before`, when the table listed exactly the open files.
record Pending {F : FileSystem} (L : OpenFiles F) (f : F.File) (s : Server F) : Type 0 where
  before : F.World
  mirrors : Mirrors L (record { fds = s.fds; world = before })
  self : L.is_open s.world f ≡ true
  only : (g : F.File) → L.is_open s.world g ≡ true → (g ≡ f) ⊎ (L.is_open before g ≡ true)
  still : (g : F.File) → L.is_open before g ≡ true → L.is_open s.world g ≡ true
  fresh : (g : F.File) → L.is_open before g ≡ true → F.fd g ≢ F.fd f

module _ {F : FileSystem} (L : OpenFiles F) where
  Pending-Unmoved : (f : F.File) {s t : Server F} → Unmoved L s t → Pending L f s → Pending L f t
  Pending-Unmoved f p v = record {
    before = v.before;
    mirrors = rw p.table v.mirrors;
    self = p.files f ∙ v.self;
    only = λ g h. v.only g (sym (p.files g) ∙ h);
    still = λ g h. p.files g ∙ v.still g h;
    fresh = v.fresh;
  }

  -- The new number stands for no file in the table, since those are open.
  Pending-find : (f : F.File) (s : Server F) → Pending L f s → find s.fds (F.fd f) ≡ none
  Pending-find f s v = elim (Option-cases (find s.fds (F.fd f))) [
    | inl unused ↦ unused
    | inr (g, found) ↦
        let (alive, own) = v.mirrors.live (F.fd f) g found in absurd (v.fresh g alive own)
  ]

  Pending-register :
      (f : F.File) (s : Server F)
      → Pending L f s
      → Mirrors L (record s { fds = store s.fds (F.fd f) f })
  Pending-register f s v =
      Mirrors-register L (record { fds = s.fds; world = v.before }) s.world f v.self v.only v.still
        v.fresh v.mirrors

  Pending-open_file :
      (p : _) (flags mode : ℕ) (s : Server F) (f : F.File) (w : F.World)
      → F.open_file p flags mode s.world ≡ (done f, w)
      → Mirrors L s
      → Pending L f (record s { world = w })
  Pending-open_file p flags mode s f w e v = record {
    before = s.world;
    mirrors = v;
    self = subst (λ x. L.is_open x f ≡ true) after (L.open_file_self p flags mode s.world opened);
    only = λ g h.
        L.open_file_only p flags mode s.world g opened
          (subst (λ x. L.is_open x g ≡ true) (sym after) h);
    still = λ g h.
        subst (λ x. L.is_open x g ≡ true) after (L.open_file_still p flags mode s.world g opened h);
    fresh = λ g. L.open_file_fresh p flags mode s.world g opened;
  }
    where
      opened : (F.open_file p flags mode s.world).0 ≡ done f
      opened = ap (λ r. r.0) e

      after : (F.open_file p flags mode s.world).1 ≡ w
      after = ap (λ r. r.1) e

  module _ (os : Os) (r : OpenRequest) where
    Safe-register :
        (f : F.File) (s : Server F)
        → Pending L f s
        → Safe L (atomic (register (F.fd f) f) >> describe_course F os r f) s
    unfolding ◌>>◌ ◌>>=◌ register
    Safe-register f s v =
        Safe-then L (register (F.fd f) f) (λ _. describe_course F os r f) s
          λ t p.
            Safe-quiet L _ _ (Within-describe (Unmoved L) (quiet_calls L) os r f)
              (Pending-register f t (Pending-Unmoved f p v))

    none_found :
        {A : Type 0} (o : Option F.File) (d : Course F A) (t : Server F)
        → o ≡ none
        → Safe L d t
        → Safe L (close_found o >> d) t
    unfolding ◌>>◌ ◌>>=◌ close_found
    none_found o d t e h = rw e h

    Safe-look_up :
        (f : F.File) (s : Server F)
        → Pending L f s
        → Safe L
            (atomic (look_up (F.fd f)) >>= λ old.
              close_found old >> (atomic (register (F.fd f) f) >> describe_course F os r f))
            s
    unfolding look_up ◌>>=◌
    Safe-look_up f s v = Safe-then L (look_up (F.fd f)) _ s λ t p.
        let u : Pending L f t = Pending-Unmoved f p v in
        none_found (find t.fds (F.fd f)) _ t (Pending-find f t u) (Safe-register f t u)

    open_file-raise :
        (s : Server F) (g : GoError) (w : F.World)
        → F.open_file r.full_path (sa_flags_to_system os r.sa_flags) r.mode s.world ≡ (raise g, w)
        → Mirrors L s
        → Mirrors L (record s { world = w })
    open_file-raise s g w e v =
        Mirrors-world L s w
          (λ f.
            subst (λ x. L.is_open x f ≡ L.is_open s.world f) (ap (λ o. o.1) e)
              (L.open_file_fails _ _ _ s.world f (ap (λ o. o.0) e)))
          v

    pub Safe-open : (s : Server F) → Mirrors L s → Safe L (open_course F os r) s
    unfolding open_course
    Safe-open s v =
        Safe-attempt L os (F.open_file r.full_path (sa_flags_to_system os r.sa_flags) r.mode) _ s
          (λ t f w p e. Safe-look_up f _ (Pending-open_file _ _ _ t f w e (Mirrors-Unmoved L p v)))
          (λ t g w p e. open_file-raise t g w e (Mirrors-Unmoved L p v))
