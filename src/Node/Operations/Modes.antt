-- ===== src/Node/Operations/Modes.antt =====
-- Lookup's classification of a file by its mode.
use dockerfuse.Base.{
  ℕ, ◌≡◌, refl, ◌<◌, ◌+◌, ◌^◌, Bool, true, ◌==◌, ==_iff, holds_below, holds_below_at,
}
use dockerfuse.Base.Bits.{has}
use dockerfuse.Node.Operations.{stable_mode, s_ifdir, s_ifreg, s_iflnk, s_ififo}

-- The file types of a mode, and their numbers (S_IFMT is 0o170000).
pub data FileType : Type 0 where
  directory regular symbolic_link fifo character_device block_device socket : FileType

abbrev pub type_bits : FileType → ℕ
type_bits directory = s_ifdir
type_bits regular = s_ifreg
type_bits symbolic_link = s_iflnk
type_bits fifo = s_ififo
type_bits character_device = 8192
type_bits block_device = 24576
type_bits socket = 49152

-- What Lookup makes of each type.
abbrev pub shown_as : FileType → FileType
shown_as character_device = regular
shown_as block_device = directory
shown_as socket = directory
shown_as t = t

abbrev as_shown : FileType → ℕ → Bool
as_shown t perm = stable_mode (type_bits t + perm) == type_bits (shown_as t)

all_as_shown : (t : FileType) → holds_below (as_shown t) 4096 ≡ true
unfolding holds_below stable_mode has
all_as_shown directory = refl
all_as_shown regular = refl
all_as_shown symbolic_link = refl
all_as_shown fifo = refl
all_as_shown character_device = refl
all_as_shown block_device = refl
all_as_shown socket = refl

-- Whatever the permission bits, Lookup shows directories, regular files, symbolic links and FIFOs
-- as what they are, character devices as regular files, and block devices and sockets as
-- directories.
pub stable_mode-type_bits :
    (t : FileType) (perm : ℕ)
    → perm < 2 ^ 12
    → stable_mode (type_bits t + perm) ≡ type_bits (shown_as t)
stable_mode-type_bits t perm h =
    (==_iff _ _).0 (holds_below_at (as_shown t) 4096 perm h (all_as_shown t))
