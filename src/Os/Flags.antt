-- ===== src/Os/Flags.antt =====
-- The open(2) flags of package syscall that the program translates. O_RDONLY is 0 on every system.
use dockerfuse.Base.{ℕ}
use dockerfuse.Os.System.{Os, linux, darwin}

pub data OpenFlag : Type 0 where
  wronly rdwr append async creat excl noctty nonblock sync trunc : OpenFlag

-- O_SYNC is __O_SYNC | O_DSYNC on Linux, so it has two bits.
abbrev pub linux_flag : OpenFlag → ℕ
linux_flag wronly = 1
linux_flag rdwr = 2
linux_flag append = 0x400
linux_flag async = 0x2000
linux_flag creat = 0x40
linux_flag excl = 0x80
linux_flag noctty = 0x100
linux_flag nonblock = 0x800
linux_flag sync = 0x101000
linux_flag trunc = 0x200

abbrev pub darwin_flag : OpenFlag → ℕ
darwin_flag wronly = 1
darwin_flag rdwr = 2
darwin_flag append = 8
darwin_flag async = 0x40
darwin_flag creat = 0x200
darwin_flag excl = 0x800
darwin_flag noctty = 0x20000
darwin_flag nonblock = 4
darwin_flag sync = 0x80
darwin_flag trunc = 0x400

-- The value of `syscall.O_…` in a program built for the system.
abbrev pub open_flag : Os → OpenFlag → ℕ
open_flag linux = linux_flag
open_flag darwin = darwin_flag
