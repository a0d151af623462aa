-- ===== src/Satellite/Attributes.antt =====
-- cmd/satellite/server/server.go, SetAttr: the attributes that the request marks are changed one
-- after the other, and the first error ends the handler.
use dockerfuse.Base.{ℕ, ◌+◌, ◌-◌, ◌*◌, ◌/◌, ◌%◌, suc, Bool, ◌||◌, if◌then◌else◌}
use dockerfuse.Base.Int.{ℤ, pos, negsuc, to_i64, to_u64}
use dockerfuse.Os.{Os}
use dockerfuse.RpcCommon.SetAttr.{
  SetAttrRequest, get_mode, get_uid, get_gid, get_a_time, get_m_time, get_size, utime_omit,
}
use dockerfuse.RpcCommon.Types.{StatReply, Time}
use dockerfuse.Satellite.FileSystem.{FileSystem, Timespec}
use dockerfuse.Satellite.Server.{Handler, pure, ◌>>◌, attempt}
use dockerfuse.Satellite.Paths.{stat}

abbrev pub second : ℕ
second = 1000000000

-- Time.UnixNano: an int64, which wraps.
unfoldable pub unix_nano : Time → ℤ
unix_nano t = elim t.sec [
  | pos s ↦ to_i64 (to_u64 (pos (s * second + t.nsec)))
  | negsuc s ↦ to_i64 (to_u64 (negsuc (suc s * second - t.nsec - 1)))
]

-- syscall.NsecToTimespec: the nanoseconds of the result are never negative.
unfoldable pub nsec_to_timespec : ℤ → Timespec
nsec_to_timespec (pos n) = record { sec = pos (n / second); nsec = pos (n % second) }
nsec_to_timespec (negsuc n) = record {
  sec = negsuc (n / second);
  nsec = pos (second - 1 - n % second);
}

-- The entry of `ts` for a time and whether it was marked.
unfoldable pub timespec_of : Time × Bool → Timespec
timespec_of (t, marked) =
    if marked then nsec_to_timespec (unix_nano t) else record { sec = pos 0; nsec = pos utime_omit }

-- The argument of Chown for an id and whether it was marked: -1 leaves the id alone.
abbrev pub owner_of : ℕ × Bool → ℤ
owner_of (id, marked) = if marked then pos id else negsuc 0

module _ (F : FileSystem) (os : Os) where
  unfoldable pub set_mode_of : SetAttrRequest → Handler F (Unit {0})
  set_mode_of r =
      let (m, marked) = get_mode r in if marked then attempt os (F.chmod r.full_path m) else pure tt

  unfoldable pub set_owner_of : SetAttrRequest → Handler F (Unit {0})
  set_owner_of r =
      if (get_uid r).1 || (get_gid r).1
      then attempt os (F.chown r.full_path (owner_of (get_uid r)) (owner_of (get_gid r)))
      else pure tt

  unfoldable pub set_times_of : SetAttrRequest → Handler F (Unit {0})
  set_times_of r =
      if (get_m_time r).1 || (get_a_time r).1
      then attempt os
          (F.utimes_nano r.full_path (timespec_of (get_a_time r)) (timespec_of (get_m_time r)))
      else pure tt

  unfoldable pub set_size_of : SetAttrRequest → Handler F (Unit {0})
  set_size_of r =
      let (size, marked) = get_size r in
      if marked then attempt os (F.truncate r.full_path (to_i64 size)) else pure tt

  unfoldable pub set_attr : SetAttrRequest → Handler F StatReply
  set_attr r = do
    set_mode_of r
    set_owner_of r
    set_times_of r
    set_size_of r
    stat F os (record { full_path = r.full_path })
