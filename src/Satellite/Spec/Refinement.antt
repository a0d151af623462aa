-- ===== src/Satellite/Spec/Refinement.antt =====
-- The handlers of server.go do to the table what Spec says of it.
use dockerfuse.Base.{
  ℕ, ◌≡◌, refl, sym, ◌∙◌, ap, subst, inl, inr, false, Option, none, some, ◌==◌, if◌then◌else◌,
  arith, [],
}
use dockerfuse.Satellite.Opening.{opening, open_path-raise}
use dockerfuse.Os.{Os}
use dockerfuse.RpcCommon.Error.{Result, return, fail, panic}
use dockerfuse.RpcCommon.Types.{OpenRequest, OpenReply}
use dockerfuse.Satellite.FileSystem.{FileSystem, Try, Stat, done, raise}
use dockerfuse.Satellite.Table.{find, store, find-store, find-remove}
use dockerfuse.Satellite.Server.{Server, attempt, attempt_or, pure, open_file_of}
use dockerfuse.Satellite.Server.Laws.{
  Refused, error-Refused, >>=-return, >>=-raise, >>=-fail, >>-return, attempt-done, attempt-world,
  open_file_of-none, open_file_of-some, attempt_or-target,
}
use dockerfuse.Satellite.Descriptors
use dockerfuse.Satellite.Dispatch
use dockerfuse.Satellite.Dispatch.{Method, dispatch}
use dockerfuse.Satellite.Concurrent.{Course, finish, access, run}
use dockerfuse.Satellite.Concurrent.Courses.{course}
use dockerfuse.Satellite.Concurrent.Refinement.{run-course, Runs-describe}
use dockerfuse.Satellite.Concurrent.Within.{Within}
use dockerfuse.Satellite.Concurrent.Quiet.{
  QuietCalls, any_world, opens_or_closes, Within-quiet, Within-describe,
}
use dockerfuse.Satellite.Spec.{Names, AfterOpen, After}

module _ (F : FileSystem) where
  abbrev SameTable : Server F → Server F → Type 0
  SameTable s t = t.fds ≡ s.fds

  quiet_calls : QuietCalls F SameTable
  quiet_calls = any_world SameTable (λ s w. refl)

  run-SameTable :
      {A : Type 0} (c : Course F A) (s : Server F) → Within SameTable c → SameTable s (run c s).1
  unfolding Within run
  run-SameTable (finish r) s h = refl
  run-SameTable (access change next) s h = run-SameTable (next s) (change s) (h s).1 ∙ (h s).0

  module _ (os : Os) where
    quiet-SameTable :
        {A : Type 0} (m : Method A) (s : Server F)
        → opens_or_closes m ≡ false
        → SameTable s (dispatch F os m s).1
    quiet-SameTable m s quiet =
        subst (λ h. SameTable s (h s).1) (run-course F os m)
          (run-SameTable (course F os m) s (Within-quiet SameTable quiet_calls os m quiet))

    describe-SameTable :
        (r : OpenRequest) (f : F.File) (s : Server F)
        → SameTable s (Descriptors.describe_open F os r f s).1
    describe-SameTable r f s =
        subst (λ h. SameTable s (h s).1) (Runs-describe F os r f)
          (run-SameTable _ s (Within-describe SameTable quiet_calls os r f))

    Refused-Names : (k : ℕ) (r : Result OpenReply) → Refused r → Names k r
    unfolding Refused Names
    Refused-Names k (return reply) h = absurd h
    Refused-Names k (fail t) h = tt
    Refused-Names k panic h = tt

    described_outcome :
        (r : OpenRequest) (f : F.File) (s : Server F) (o : Try Stat) (w : F.World)
        → F.stat f s.world ≡ (o, w)
        → Names (F.fd f) (Descriptors.describe_open F os r f s).0
    unfolding Descriptors.describe_open Names pure
    described_outcome r f s (raise g) w e =
        subst (λ x. Names (F.fd f) x.0) (sym (>>=-raise os (F.stat f) _ s g w e))
          (Refused-Names (F.fd f) _ (error-Refused OpenReply os g))
    described_outcome r f s (done sys) w e =
        let t : Server F = record s { world = w } in
        subst (λ x. Names (F.fd f) x.0)
          (sym (
            >>=-return (attempt os (F.stat f)) _ s t sys (attempt-done os (F.stat f) s sys w e)
            ∙ >>=-return (attempt_or [] (F.readlink r.full_path)) _ t _ _
                (attempt_or-target r.full_path t _ _ refl)))
          refl

    stale_closed :
        (k : ℕ) (s : Server F) (o : Option F.File)
        → find s.fds k ≡ o
        → (w : F.World) × (Descriptors.close_stale k s ≡ (return tt, record s { world = w }))
    unfolding Descriptors.close_stale
    stale_closed k s none e = (s.world, ground arith)
    stale_closed k s (some old) e = ((F.close old s.world).1, ground arith)

    opened_as :
        (r : OpenRequest) (s : Server F) (f : F.File) (w : F.World)
        → opening F os r s w s.world ≡ (done f, w)
        → (w' : F.World) × (Descriptors.open_path F os r s
            ≡ Descriptors.describe_open F os r f
                (record { fds = store s.fds (F.fd f) f; world = w' }))
    unfolding Descriptors.open_path Descriptors.register
    opened_as r s f w e =
        let t : Server F = record s { world = w } in
        let (w', closed) = stale_closed (F.fd f) t (find t.fds (F.fd f)) refl in
        (
          w',
          >>=-return (attempt os (opening F os r s w)) _ s t f
                (attempt-done os (opening F os r s w) s f w e)
              ∙ >>-return (Descriptors.close_stale (F.fd f)) _ t _ tt closed
              ∙ >>-return (Descriptors.register (F.fd f) f) _ (record t { world = w' }) _ tt refl,
        )

    open_outcome :
        (r : OpenRequest) (s : Server F) (o : Try F.File) (w : F.World)
        → opening F os r s w s.world ≡ (o, w)
        → AfterOpen F
            (Descriptors.open_path F os r s).0
            (find s.fds)
            (find (Descriptors.open_path F os r s).1.fds)
    open_outcome r s (raise g) w e =
        subst (λ x. AfterOpen F x.0 (find s.fds) (find x.1.fds))
          (sym (open_path-raise F os r s w g e)) (inl (error-Refused OpenReply os g, λ j. refl))
    open_outcome r s (done f) w e =
        let (w', opened) = opened_as r s f w e in
        let u : Server F = record { fds = store s.fds (F.fd f) f; world = w' } in
        subst (λ x. AfterOpen F x.0 (find s.fds) (find x.1.fds)) (sym opened)
          (inr (
            f,
            described_outcome r f u _ _ refl,
            λ j. ap (λ m. find m j) (describe-SameTable r f u) ∙ find-store s.fds (F.fd f) j f,
          ))

    close_outcome :
        (k : ℕ) (s : Server F) (o : Option F.File)
        → find s.fds k ≡ o
        → (j : ℕ)
        → find (Descriptors.close F os (record { fd = k }) s).1.fds j
          ≡ (if j == k then none else find s.fds j)
    unfolding Descriptors.close Descriptors.close_and_delete
    close_outcome k s none e j =
        rw
          (>>=-fail (open_file_of os k) (Descriptors.close_and_delete F os k) s s _
            (open_file_of-none os k s e))
          (ground arith)
    close_outcome k s (some file) e j =
        rw
          (
            >>=-return (open_file_of os k) (Descriptors.close_and_delete F os k) s s file
                (open_file_of-some os k s file e),
            attempt-world os (F.close file) s,
          )
          (find-remove s.fds k j)

    after_quiet :
        {A : Type 0} (m : Method A) (s : Server F)
        → opens_or_closes m ≡ false
        → (j : ℕ) → find (dispatch F os m s).1.fds j ≡ find s.fds j
    after_quiet m s quiet j = ap (λ t. find t j) (quiet-SameTable m s quiet)

    -- In any system, and whatever stands in the table: Open either fails and leaves the map from
    -- numbers to files, or puts one file under its number in the place of what was there, and then
    -- answers that number if it succeeds; Close removes its number, also where it fails; every
    -- other request leaves the map.
    pub dispatch-After :
        {A : Type 0} (m : Method A) (s : Server F)
        → After F m (dispatch F os m s).0 (find s.fds) (find (dispatch F os m s).1.fds)
    unfolding After opens_or_closes dispatch
    dispatch-After (Dispatch.open_path r) s = open_outcome r s _ _ refl
    dispatch-After (Dispatch.close r) s = close_outcome r.fd s (find s.fds r.fd) refl
    dispatch-After m s = after_quiet m s refl
