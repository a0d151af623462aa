-- ===== src/System/SetAttr.antt =====
-- setAttr from fuse.SetAttrIn to the request: what its getters answer.
pub mod Calls
use dockerfuse.Base.{ℕ, ◌≡◌, refl, ◌∙◌, ap, Bool, true, false, Option, none, some}
use dockerfuse.Base.Bits.{has}
use dockerfuse.Base.Int.{ℤ, pos, negsuc, to_i64}
use dockerfuse.Base.Text.{Text}
use dockerfuse.Os.{Os}
use dockerfuse.RpcCommon.SetAttr.{
  SetAttrRequest, get_mode, get_uid, get_gid, get_a_time, get_m_time, get_size, set_mode, set_uid,
  set_gid, set_a_time, set_m_time, set_size, zero_time, utime_omit,
}
use dockerfuse.RpcCommon.SetAttr.{
  getters-set_mode, getters-set_uid, getters-set_gid, getters-set_a_time, getters-set_m_time,
  getters-set_size,
}
use dockerfuse.RpcCommon.Types.{Time}
use dockerfuse.Satellite.FileSystem.{FileSystem, Timespec}
use dockerfuse.Satellite.Server.{Handler, ◌>>◌, pure, attempt}
use dockerfuse.Satellite.Dispatch
use dockerfuse.Satellite.Dispatch.{Method, dispatch}
use dockerfuse.Satellite.Paths.{stat}
use dockerfuse.Satellite.Attributes.{
  unix_nano, nsec_to_timespec, timespec_of, set_mode_of, set_owner_of, set_times_of, set_size_of,
  set_attr,
}
use dockerfuse.Client.Calls.{SetAttrIn, set_if, empty_set_attr_request, set_attr_request}

-- What the six getters answer.
pub record Answers : Type 0 where
  pub a_time : Time × Bool
  pub m_time : Time × Bool
  pub uid : ℕ × Bool
  pub gid : ℕ × Bool
  pub mode : ℕ × Bool
  pub size : ℕ × Bool

abbrev pub answers : SetAttrRequest → Answers
answers r = record {
  a_time = get_a_time r;
  m_time = get_m_time r;
  uid = get_uid r;
  gid = get_gid r;
  mode = get_mode r;
  size = get_size r;
}

-- The answer after an optional setting.
abbrev pub after {ℓ} : {V : Type ℓ} → Option V → V × Bool → V × Bool
after none old = old
after (some v) old = (v, true)

module _ (r : SetAttrRequest) where
  answers-a_time :
      (o : Option Time)
      → answers (set_if set_a_time o r) ≡ record (answers r) { a_time = after o (get_a_time r) }
  answers-a_time none = refl
  answers-a_time (some v) = let (a, b, c, d, e, f) = getters-set_a_time r v in rw (a, b, c, d, e, f)

  answers-m_time :
      (o : Option Time)
      → answers (set_if set_m_time o r) ≡ record (answers r) { m_time = after o (get_m_time r) }
  answers-m_time none = refl
  answers-m_time (some v) = let (a, b, c, d, e, f) = getters-set_m_time r v in rw (a, b, c, d, e, f)

  answers-uid :
      (o : Option ℕ)
      → answers (set_if set_uid o r) ≡ record (answers r) { uid = after o (get_uid r) }
  answers-uid none = refl
  answers-uid (some v) = let (a, b, c, d, e, f) = getters-set_uid r v in rw (a, b, c, d, e, f)

  answers-gid :
      (o : Option ℕ)
      → answers (set_if set_gid o r) ≡ record (answers r) { gid = after o (get_gid r) }
  answers-gid none = refl
  answers-gid (some v) = let (a, b, c, d, e, f) = getters-set_gid r v in rw (a, b, c, d, e, f)

  answers-mode :
      (o : Option ℕ)
      → answers (set_if set_mode o r) ≡ record (answers r) { mode = after o (get_mode r) }
  answers-mode none = refl
  answers-mode (some v) = let (a, b, c, d, e, f) = getters-set_mode r v in rw (a, b, c, d, e, f)

  answers-size :
      (o : Option ℕ)
      → answers (set_if set_size o r) ≡ record (answers r) { size = after o (get_size r) }
  answers-size none = refl
  answers-size (some v) = let (a, b, c, d, e, f) = getters-set_size r v in rw (a, b, c, d, e, f)

-- The getters of the request that setAttr builds answer exactly the attributes that the kernel
-- asked to set.
pub answers-set_attr_request :
    (p : Text) (i : SetAttrIn)
    → answers (set_attr_request p i) ≡ record {
      a_time = after i.a_time (zero_time, false);
      m_time = after i.m_time (zero_time, false);
      uid = after i.uid (0, false);
      gid = after i.gid (0, false);
      mode = after i.mode (0, false);
      size = after i.size (0, false);
    }
unfolding set_attr_request get_mode get_uid get_gid get_a_time get_m_time get_size has
answers-set_attr_request p i =
    answers-size _ i.size
    ∙ ap (λ (a : Answers). record a { size = after i.size a.size })
        (answers-mode _ i.mode
          ∙ ap (λ (a : Answers). record a { mode = after i.mode a.mode })
              (answers-gid _ i.gid
                ∙ ap (λ (a : Answers). record a { gid = after i.gid a.gid })
                    (answers-uid _ i.uid
                      ∙ ap (λ (a : Answers). record a { uid = after i.uid a.uid })
                          (answers-m_time _ i.m_time
                            ∙ ap (λ (a : Answers). record a { m_time = after i.m_time a.m_time })
                                (answers-a_time (empty_set_attr_request p) i.a_time)))))
