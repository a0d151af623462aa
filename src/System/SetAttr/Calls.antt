-- ===== src/System/SetAttr/Calls.antt =====
-- setAttr from fuse.SetAttrIn to the calls of the operating system.
use dockerfuse.Base.{ℕ, ◌≡◌, refl, ◌∙◌, ap, false, Option, none, some}
use dockerfuse.Base.Int.{ℤ, pos, negsuc, to_i64}
use dockerfuse.Base.Text.{Text}
use dockerfuse.Os.{Os}
use dockerfuse.RpcCommon.SetAttr.{
  SetAttrRequest, get_mode, get_uid, get_gid, get_a_time, get_m_time, get_size, set_mode, set_uid,
  set_gid, set_a_time, set_m_time, set_size, zero_time, utime_omit,
}
use dockerfuse.RpcCommon.Types.{Time}
use dockerfuse.Satellite.FileSystem.{FileSystem, Timespec}
use dockerfuse.Satellite.Server.{Handler, ◌>>◌, pure, attempt}
use dockerfuse.Satellite.Dispatch
use dockerfuse.Satellite.Dispatch.{Method, dispatch}
use dockerfuse.Satellite.Paths.{stat}
use dockerfuse.Satellite.Attributes.{
  unix_nano, nsec_to_timespec, timespec_of, set_mode_of, set_owner_of, set_times_of, set_size_of,
  set_attr,
}
use dockerfuse.Client.Calls.{SetAttrIn, set_if, set_attr_request}
use dockerfuse.System.SetAttr.{Answers, after, answers-set_attr_request}

module _ (F : FileSystem) (os : Os) (p : Text) where
  -- The calls that the kernel's request asks for, one for each kind of attribute.
  abbrev pub change_mode : Option ℕ → Handler F (Unit {0})
  change_mode none = pure tt
  change_mode (some m) = attempt os (F.chmod p m)

  abbrev pub id_or_unchanged : Option ℕ → ℤ
  id_or_unchanged none = negsuc 0
  id_or_unchanged (some id) = pos id

  abbrev pub change_owner : Option ℕ → Option ℕ → Handler F (Unit {0})
  change_owner none none = pure tt
  change_owner u g = attempt os (F.chown p (id_or_unchanged u) (id_or_unchanged g))

  abbrev pub time_or_omitted : Option Time → Timespec
  time_or_omitted none = record { sec = pos 0; nsec = pos utime_omit }
  time_or_omitted (some t) = nsec_to_timespec (unix_nano t)

  abbrev pub change_times : Option Time → Option Time → Handler F (Unit {0})
  change_times none none = pure tt
  change_times a m = attempt os (F.utimes_nano p (time_or_omitted a) (time_or_omitted m))

  abbrev pub change_size : Option ℕ → Handler F (Unit {0})
  change_size none = pure tt
  change_size (some n) = attempt os (F.truncate p (to_i64 n))

  mode_part :
      (r : SetAttrRequest) (o : Option ℕ)
      → r.full_path ≡ p
      → get_mode r ≡ after o (0, false)
      → set_mode_of F os r ≡ change_mode o
  unfolding set_mode_of
  mode_part r none path e = rw e
  mode_part r (some m) path e = rw (e, path)

  owner_part :
      (r : SetAttrRequest) (u g : Option ℕ)
      → r.full_path ≡ p
      → get_uid r ≡ after u (0, false)
      → get_gid r ≡ after g (0, false)
      → set_owner_of F os r ≡ change_owner u g
  unfolding set_owner_of
  owner_part r none none path eu eg = rw (eu, eg)
  owner_part r none (some g) path eu eg = rw (eu, eg, path)
  owner_part r (some u) none path eu eg = rw (eu, eg, path)
  owner_part r (some u) (some g) path eu eg = rw (eu, eg, path)

  times_part :
      (r : SetAttrRequest) (a m : Option Time)
      → r.full_path ≡ p
      → get_a_time r ≡ after a (zero_time, false)
      → get_m_time r ≡ after m (zero_time, false)
      → set_times_of F os r ≡ change_times a m
  unfolding set_times_of timespec_of
  times_part r none none path ea em = rw (ea, em)
  times_part r none (some m) path ea em = rw (ea, em, path)
  times_part r (some a) none path ea em = rw (ea, em, path)
  times_part r (some a) (some m) path ea em = rw (ea, em, path)

  size_part :
      (r : SetAttrRequest) (o : Option ℕ)
      → r.full_path ≡ p
      → get_size r ≡ after o (0, false)
      → set_size_of F os r ≡ change_size o
  unfolding set_size_of
  size_part r none path e = rw e
  size_part r (some n) path e = rw (e, path)

path_kept :
    {V : Type 0} (set : SetAttrRequest → V → SetAttrRequest) (r : SetAttrRequest) (o : Option V)
    → ((r : SetAttrRequest) (v : V) → (set r v).full_path ≡ r.full_path)
    → (set_if set o r).full_path ≡ r.full_path
path_kept set r none h = refl
path_kept set r (some v) h = h r v

set_attr_request_path : (p : Text) (i : SetAttrIn) → (set_attr_request p i).full_path ≡ p
unfolding set_attr_request set_mode set_uid set_gid set_a_time set_m_time set_size
set_attr_request_path p i =
    path_kept set_size _ i.size (λ r v. refl)
    ∙ path_kept set_mode _ i.mode (λ r v. refl)
    ∙ path_kept set_gid _ i.gid (λ r v. refl)
    ∙ path_kept set_uid _ i.uid (λ r v. refl)
    ∙ path_kept set_m_time _ i.m_time (λ r v. refl)
    ∙ path_kept set_a_time _ i.a_time (λ r v. refl)

-- SetAttr of the request that setAttr builds makes exactly the calls that the kernel asks for, in
-- the order chmod, chown, utimes, truncate, lstat, each only if all before it succeeded.
pub set_attr_calls :
    (F : FileSystem) (os : Os) (p : Text) (i : SetAttrIn)
    → dispatch F os (Dispatch.set_attr (set_attr_request p i)) ≡ (
        change_mode F os p i.mode
        >> (change_owner F os p i.uid i.gid
            >> (change_times F os p i.a_time i.m_time
                >> (change_size F os p i.size >> stat F os (record { full_path = p })))))
unfolding dispatch set_attr
set_attr_calls F os p i =
    let r : SetAttrRequest = set_attr_request p i in
    let path : r.full_path ≡ p = set_attr_request_path p i in
    let e = answers-set_attr_request p i in
    rw (
      mode_part F os p r i.mode path (ap (λ (a : Answers). a.mode) e),
      owner_part F os p r i.uid i.gid path (ap (λ (a : Answers). a.uid) e)
          (ap (λ (a : Answers). a.gid) e),
      times_part F os p r i.a_time i.m_time path (ap (λ (a : Answers). a.a_time) e)
          (ap (λ (a : Answers). a.m_time) e),
      size_part F os p r i.size path (ap (λ (a : Answers). a.size) e),
      path,
    )
