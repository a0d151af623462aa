-- ===== src/RpcCommon/Flags/Defs.antt =====
-- The two translations, `if` by `if`.
use dockerfuse.Base.{ℕ, bit_or, ◌==◌, if◌then◌else◌}
use dockerfuse.Base.Bits.{has}
use dockerfuse.Os.{Os}
use dockerfuse.Os.Flags.{OpenFlag, open_flag, wronly, rdwr, append, async, creat, excl, noctty}
use dockerfuse.Os.Flags.{nonblock, sync, trunc}

-- The constants O_WRONLY … O_TRUNC of the package. O_RDONLY is 0.
abbrev pub agnostic_flag : OpenFlag → ℕ
agnostic_flag wronly = 1
agnostic_flag rdwr = 2
agnostic_flag append = 4
agnostic_flag async = 8
agnostic_flag creat = 16
agnostic_flag excl = 32
agnostic_flag noctty = 64
agnostic_flag nonblock = 128
agnostic_flag sync = 256
agnostic_flag trunc = 512

-- if flagsIn&tested == tested { flags |= added }
unfoldable pub add_flag : ℕ → ℕ → ℕ → ℕ → ℕ
add_flag flags_in tested added flags = if has flags_in tested then bit_or flags added else flags

-- SystemToSAFlags, built for the system `os`.
unfoldable pub system_to_sa_flags : Os → ℕ → ℕ
system_to_sa_flags os flags_in =
    let f1 : ℕ = add_flag flags_in (open_flag os wronly) (agnostic_flag wronly) 0 in
    let f2 : ℕ = add_flag flags_in (open_flag os rdwr) (agnostic_flag rdwr) f1 in
    let f3 : ℕ = add_flag flags_in (open_flag os append) (agnostic_flag append) f2 in
    let f4 : ℕ = add_flag flags_in (open_flag os async) (agnostic_flag async) f3 in
    let f5 : ℕ = add_flag flags_in (open_flag os creat) (agnostic_flag creat) f4 in
    let f6 : ℕ = add_flag flags_in (open_flag os excl) (agnostic_flag excl) f5 in
    let f7 : ℕ = add_flag flags_in (open_flag os noctty) (agnostic_flag noctty) f6 in
    let f8 : ℕ = add_flag flags_in (open_flag os nonblock) (agnostic_flag nonblock) f7 in
    let f9 : ℕ = add_flag flags_in (open_flag os sync) (agnostic_flag sync) f8 in
    let f10 : ℕ = add_flag flags_in (open_flag os trunc) (agnostic_flag trunc) f9 in
    if flags_in == 0 then 0 else f10

-- SAFlagsToSystem, built for the system `os`.
unfoldable pub sa_flags_to_system : Os → ℕ → ℕ
sa_flags_to_system os flags_in =
    let f1 : ℕ = add_flag flags_in (agnostic_flag wronly) (open_flag os wronly) 0 in
    let f2 : ℕ = add_flag flags_in (agnostic_flag rdwr) (open_flag os rdwr) f1 in
    let f3 : ℕ = add_flag flags_in (agnostic_flag append) (open_flag os append) f2 in
    let f4 : ℕ = add_flag flags_in (agnostic_flag async) (open_flag os async) f3 in
    let f5 : ℕ = add_flag flags_in (agnostic_flag creat) (open_flag os creat) f4 in
    let f6 : ℕ = add_flag flags_in (agnostic_flag excl) (open_flag os excl) f5 in
    let f7 : ℕ = add_flag flags_in (agnostic_flag noctty) (open_flag os noctty) f6 in
    let f8 : ℕ = add_flag flags_in (agnostic_flag nonblock) (open_flag os nonblock) f7 in
    let f9 : ℕ = add_flag flags_in (agnostic_flag sync) (open_flag os sync) f8 in
    let f10 : ℕ = add_flag flags_in (agnostic_flag trunc) (open_flag os trunc) f9 in
    if flags_in == 0 then 0 else f10
