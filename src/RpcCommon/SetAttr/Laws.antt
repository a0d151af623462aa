-- ===== src/RpcCommon/SetAttr/Laws.antt =====
-- A setter is seen by its own getter and by no other.
use dockerfuse.Base.{ℕ, ◌≡◌, refl, true}
use dockerfuse.Base.Bits.{has-bit_or_self, has-bit_or_other}
use dockerfuse.RpcCommon.Types.{Time}
use dockerfuse.RpcCommon.SetAttr.Defs.{
  SetAttrRequest, sattr_atime, sattr_gid, sattr_mode, sattr_mtime, sattr_size, sattr_uid, get_mode,
  get_uid, get_gid, get_a_time, get_m_time, get_size, set_mode, set_uid, set_gid, set_a_time,
  set_m_time, set_size,
}

-- After set_mode its getter answers the value, and the other five answer what they did.
pub getters-set_mode :
    (r : SetAttrRequest) (v : ℕ)
    → (get_mode (set_mode r v) ≡ (v, true))
      × (get_uid (set_mode r v) ≡ get_uid r)
      × (get_gid (set_mode r v) ≡ get_gid r)
      × (get_a_time (set_mode r v) ≡ get_a_time r)
      × (get_m_time (set_mode r v) ≡ get_m_time r)
      × (get_size (set_mode r v) ≡ get_size r)
unfolding set_mode get_mode get_uid get_gid get_a_time get_m_time get_size
getters-set_mode r v = (
  rw (has-bit_or_self r.valid_attrs sattr_mode),
  rw (has-bit_or_other r.valid_attrs sattr_mode sattr_uid refl),
  rw (has-bit_or_other r.valid_attrs sattr_mode sattr_gid refl),
  rw (has-bit_or_other r.valid_attrs sattr_mode sattr_atime refl),
  rw (has-bit_or_other r.valid_attrs sattr_mode sattr_mtime refl),
  rw (has-bit_or_other r.valid_attrs sattr_mode sattr_size refl),
)

-- After set_uid its getter answers the value, and the other five answer what they did.
pub getters-set_uid :
    (r : SetAttrRequest) (v : ℕ)
    → (get_uid (set_uid r v) ≡ (v, true))
      × (get_mode (set_uid r v) ≡ get_mode r)
      × (get_gid (set_uid r v) ≡ get_gid r)
      × (get_a_time (set_uid r v) ≡ get_a_time r)
      × (get_m_time (set_uid r v) ≡ get_m_time r)
      × (get_size (set_uid r v) ≡ get_size r)
unfolding set_uid get_mode get_uid get_gid get_a_time get_m_time get_size
getters-set_uid r v = (
  rw (has-bit_or_self r.valid_attrs sattr_uid),
  rw (has-bit_or_other r.valid_attrs sattr_uid sattr_mode refl),
  rw (has-bit_or_other r.valid_attrs sattr_uid sattr_gid refl),
  rw (has-bit_or_other r.valid_attrs sattr_uid sattr_atime refl),
  rw (has-bit_or_other r.valid_attrs sattr_uid sattr_mtime refl),
  rw (has-bit_or_other r.valid_attrs sattr_uid sattr_size refl),
)

-- After set_gid its getter answers the value, and the other five answer what they did.
pub getters-set_gid :
    (r : SetAttrRequest) (v : ℕ)
    → (get_gid (set_gid r v) ≡ (v, true))
      × (get_mode (set_gid r v) ≡ get_mode r)
      × (get_uid (set_gid r v) ≡ get_uid r)
      × (get_a_time (set_gid r v) ≡ get_a_time r)
      × (get_m_time (set_gid r v) ≡ get_m_time r)
      × (get_size (set_gid r v) ≡ get_size r)
unfolding set_gid get_mode get_uid get_gid get_a_time get_m_time get_size
getters-set_gid r v = (
  rw (has-bit_or_self r.valid_attrs sattr_gid),
  rw (has-bit_or_other r.valid_attrs sattr_gid sattr_mode refl),
  rw (has-bit_or_other r.valid_attrs sattr_gid sattr_uid refl),
  rw (has-bit_or_other r.valid_attrs sattr_gid sattr_atime refl),
  rw (has-bit_or_other r.valid_attrs sattr_gid sattr_mtime refl),
  rw (has-bit_or_other r.valid_attrs sattr_gid sattr_size refl),
)

-- After set_a_time its getter answers the value, and the other five answer what they did.
pub getters-set_a_time :
    (r : SetAttrRequest) (v : Time)
    → (get_a_time (set_a_time r v) ≡ (v, true))
      × (get_mode (set_a_time r v) ≡ get_mode r)
      × (get_uid (set_a_time r v) ≡ get_uid r)
      × (get_gid (set_a_time r v) ≡ get_gid r)
      × (get_m_time (set_a_time r v) ≡ get_m_time r)
      × (get_size (set_a_time r v) ≡ get_size r)
unfolding set_a_time get_mode get_uid get_gid get_a_time get_m_time get_size
getters-set_a_time r v = (
  rw (has-bit_or_self r.valid_attrs sattr_atime),
  rw (has-bit_or_other r.valid_attrs sattr_atime sattr_mode refl),
  rw (has-bit_or_other r.valid_attrs sattr_atime sattr_uid refl),
  rw (has-bit_or_other r.valid_attrs sattr_atime sattr_gid refl),
  rw (has-bit_or_other r.valid_attrs sattr_atime sattr_mtime refl),
  rw (has-bit_or_other r.valid_attrs sattr_atime sattr_size refl),
)

-- After set_m_time its getter answers the value, and the other five answer what they did.
pub getters-set_m_time :
    (r : SetAttrRequest) (v : Time)
    → (get_m_time (set_m_time r v) ≡ (v, true))
      × (get_mode (set_m_time r v) ≡ get_mode r)
      × (get_uid (set_m_time r v) ≡ get_uid r)
      × (get_gid (set_m_time r v) ≡ get_gid r)
      × (get_a_time (set_m_time r v) ≡ get_a_time r)
      × (get_size (set_m_time r v) ≡ get_size r)
unfolding set_m_time get_mode get_uid get_gid get_a_time get_m_time get_size
getters-set_m_time r v = (
  rw (has-bit_or_self r.valid_attrs sattr_mtime),
  rw (has-bit_or_other r.valid_attrs sattr_mtime sattr_mode refl),
  rw (has-bit_or_other r.valid_attrs sattr_mtime sattr_uid refl),
  rw (has-bit_or_other r.valid_attrs sattr_mtime sattr_gid refl),
  rw (has-bit_or_other r.valid_attrs sattr_mtime sattr_atime refl),
  rw (has-bit_or_other r.valid_attrs sattr_mtime sattr_size refl),
)

-- After set_size its getter answers the value, and the other five answer what they did.
pub getters-set_size :
    (r : SetAttrRequest) (v : ℕ)
    → (get_size (set_size r v) ≡ (v, true))
      × (get_mode (set_size r v) ≡ get_mode r)
      × (get_uid (set_size r v) ≡ get_uid r)
      × (get_gid (set_size r v) ≡ get_gid r)
      × (get_a_time (set_size r v) ≡ get_a_time r)
      × (get_m_time (set_size r v) ≡ get_m_time r)
unfolding set_size get_mode get_uid get_gid get_a_time get_m_time get_size
getters-set_size r v = (
  rw (has-bit_or_self r.valid_attrs sattr_size),
  rw (has-bit_or_other r.valid_attrs sattr_size sattr_mode refl),
  rw (has-bit_or_other r.valid_attrs sattr_size sattr_uid refl),
  rw (has-bit_or_other r.valid_attrs sattr_size sattr_gid refl),
  rw (has-bit_or_other r.valid_attrs sattr_size sattr_atime refl),
  rw (has-bit_or_other r.valid_attrs sattr_size sattr_mtime refl),
)
