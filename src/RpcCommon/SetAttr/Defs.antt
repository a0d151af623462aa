-- ===== src/RpcCommon/SetAttr/Defs.antt =====
-- The request, the bits of its bitmap, and a getter and a setter for each attribute.
use dockerfuse.Base.{ℕ, bit_or, Bool, true, false, if◌then◌else◌}
use dockerfuse.Base.Bits.{has}
use dockerfuse.Base.Int.{negsuc}
use dockerfuse.Base.Text.{Text}
use dockerfuse.RpcCommon.Types.{StatReply, Time}

abbrev pub sattr_atime : ℕ
sattr_atime = 1

abbrev pub sattr_gid : ℕ
sattr_gid = 2

abbrev pub sattr_mode : ℕ
sattr_mode = 4

abbrev pub sattr_mtime : ℕ
sattr_mtime = 8

abbrev pub sattr_size : ℕ
sattr_size = 16

abbrev pub sattr_uid : ℕ
sattr_uid = 32

abbrev pub utime_omit : ℕ
utime_omit = 1073741822

-- time.Time{}: January 1 of the year 1.
abbrev pub zero_time : Time
zero_time = record { sec = negsuc 62135596799; nsec = 0 }

pub record SetAttrRequest : Type 0 where
  pub full_path : Text
  pub valid_attrs : ℕ
  pub a_time : Time
  pub m_time : Time
  pub uid : ℕ
  pub gid : ℕ
  pub mode : ℕ
  pub size : ℕ

abbrev pub SetAttrReply : Type 0
SetAttrReply = StatReply

unfoldable pub get_mode : SetAttrRequest → ℕ × Bool
get_mode r = if has r.valid_attrs sattr_mode then (r.mode, true) else (0, false)

unfoldable pub get_uid : SetAttrRequest → ℕ × Bool
get_uid r = if has r.valid_attrs sattr_uid then (r.uid, true) else (0, false)

unfoldable pub get_gid : SetAttrRequest → ℕ × Bool
get_gid r = if has r.valid_attrs sattr_gid then (r.gid, true) else (0, false)

unfoldable pub get_a_time : SetAttrRequest → Time × Bool
get_a_time r = if has r.valid_attrs sattr_atime then (r.a_time, true) else (zero_time, false)

unfoldable pub get_m_time : SetAttrRequest → Time × Bool
get_m_time r = if has r.valid_attrs sattr_mtime then (r.m_time, true) else (zero_time, false)

unfoldable pub get_size : SetAttrRequest → ℕ × Bool
get_size r = if has r.valid_attrs sattr_size then (r.size, true) else (0, false)

unfoldable pub set_mode : SetAttrRequest → ℕ → SetAttrRequest
set_mode r v = record r { mode = v; valid_attrs = bit_or r.valid_attrs sattr_mode }

unfoldable pub set_uid : SetAttrRequest → ℕ → SetAttrRequest
set_uid r v = record r { uid = v; valid_attrs = bit_or r.valid_attrs sattr_uid }

unfoldable pub set_gid : SetAttrRequest → ℕ → SetAttrRequest
set_gid r v = record r { gid = v; valid_attrs = bit_or r.valid_attrs sattr_gid }

unfoldable pub set_a_time : SetAttrRequest → Time → SetAttrRequest
set_a_time r v = record r { a_time = v; valid_attrs = bit_or r.valid_attrs sattr_atime }

unfoldable pub set_m_time : SetAttrRequest → Time → SetAttrRequest
set_m_time r v = record r { m_time = v; valid_attrs = bit_or r.valid_attrs sattr_mtime }

unfoldable pub set_size : SetAttrRequest → ℕ → SetAttrRequest
set_size r v = record r { size = v; valid_attrs = bit_or r.valid_attrs sattr_size }
