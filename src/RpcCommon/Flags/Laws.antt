-- ===== src/RpcCommon/Flags/Laws.antt =====
-- SystemToSAFlags and SAFlagsToSystem: each flag is translated for itself, and what one system sends
-- another system reads.
use dockerfuse.Base.{
  ℕ, ◌≡◌, refl, sym, ◌∙◌, ◌<◌, ◌^◌, true, false, ◌∷◌, ◌++◌, arith, ◌==◌, if◌then◌else◌, Bool-cases,
  inl, inr, holds_below, holds_below_at, ==_iff,
}
use dockerfuse.Base.Bits.{has}
use dockerfuse.Os.{Os, linux, darwin}
use dockerfuse.Os.Flags.{OpenFlag, open_flag, wronly}
use dockerfuse.RpcCommon.Flags.Defs.{
  agnostic_flag, add_flag, system_to_sa_flags, sa_flags_to_system,
}
use dockerfuse.RpcCommon.Flags.Chain.{
  before, after, add_flags, add_flags-lt_pow, has-add_flags, Apart-agnostic_flag, Apart-open_flag,
}

-- The flags in the order of the source, split at `f`.
abbrev around : (OpenFlag → ℕ) → (OpenFlag → ℕ) → ℕ → OpenFlag → ℕ
around from to x f = add_flags from to x (before f ++ f ∷ after f) 0

system_to_sa_flags-around :
    (os : Os) (x : ℕ) (f : OpenFlag)
    → system_to_sa_flags os x ≡ (if x == 0 then 0 else around (open_flag os) agnostic_flag x f)
unfolding system_to_sa_flags add_flags before after
system_to_sa_flags-around os x wronly = refl
system_to_sa_flags-around os x _ = refl

sa_flags_to_system-around :
    (os : Os) (x : ℕ) (f : OpenFlag)
    → sa_flags_to_system os x ≡ (if x == 0 then 0 else around agnostic_flag (open_flag os) x f)
unfolding sa_flags_to_system add_flags before after
sa_flags_to_system-around os x wronly = refl
sa_flags_to_system-around os x _ = refl

-- No flag is set in 0.
has-zero_agnostic : (f : OpenFlag) → has 0 (agnostic_flag f) ≡ false
unfolding has
has-zero_agnostic wronly = refl
has-zero_agnostic _ = refl

has-zero_open : (os : Os) (f : OpenFlag) → has 0 (open_flag os f) ≡ false
unfolding has
has-zero_open linux wronly = refl
has-zero_open linux _ = refl
has-zero_open darwin wronly = refl
has-zero_open darwin _ = refl

-- A flag is set in the result of SystemToSAFlags exactly when all its bits are set in the argument.
pub has-system_to_sa_flags :
    (os : Os) (x : ℕ) (f : OpenFlag)
    → has (system_to_sa_flags os x) (agnostic_flag f) ≡ has x (open_flag os f)
has-system_to_sa_flags os x f = elim (Bool-cases (x == 0)) [
  | inl zero_flags ↦
      rw (system_to_sa_flags-around os x f, zero_flags, (==_iff x 0).0 zero_flags)
        (has-zero_agnostic f ∙ sym (has-zero_open os f))
  | inr some_flags ↦
      let (positive, apart) = Apart-agnostic_flag f in
      rw (system_to_sa_flags-around os x f, some_flags)
        (has-add_flags (open_flag os) agnostic_flag x f positive apart)
]

-- A flag is set in the result of SAFlagsToSystem exactly when it is set in the argument.
pub has-sa_flags_to_system :
    (os : Os) (x : ℕ) (f : OpenFlag)
    → has (sa_flags_to_system os x) (open_flag os f) ≡ has x (agnostic_flag f)
has-sa_flags_to_system os x f = elim (Bool-cases (x == 0)) [
  | inl zero_flags ↦
      rw (sa_flags_to_system-around os x f, zero_flags, (==_iff x 0).0 zero_flags)
        (has-zero_open os f ∙ sym (has-zero_agnostic f))
  | inr some_flags ↦
      let (positive, apart) = Apart-open_flag os f in
      rw (sa_flags_to_system-around os x f, some_flags)
        (has-add_flags agnostic_flag (open_flag os) x f positive apart)
]

-- The result uses the ten lowest bits of a uint16.
pub system_to_sa_flags-lt : (os : Os) (x : ℕ) → system_to_sa_flags os x < 2 ^ 10
unfolding before after
system_to_sa_flags-lt os x = ground (
  arith,
  system_to_sa_flags-around os x wronly,
  add_flags-lt_pow (open_flag os) agnostic_flag x 10 (before wronly ++ wronly ∷ after wronly) 0
      (omega arith) (omega arith),
)

there_and_back_table :
    (os : Os) → holds_below (λ s. system_to_sa_flags os (sa_flags_to_system os s) == s) 1024 ≡ true
unfolding holds_below system_to_sa_flags sa_flags_to_system add_flag has
there_and_back_table linux = refl
there_and_back_table darwin = refl

-- Agnostic flags below 2 ^ 10 are the same after SAFlagsToSystem and SystemToSAFlags.
pub system_to_sa_flags-sa_flags_to_system :
    (os : Os) (s : ℕ) → s < 2 ^ 10 → system_to_sa_flags os (sa_flags_to_system os s) ≡ s
system_to_sa_flags-sa_flags_to_system os s h =
    (==_iff _ s).0 (holds_below_at _ 1024 s h (there_and_back_table os))

-- Whatever flags a program passes on one system, the other system's numbering of them is read back
-- as the same agnostic flags.
pub flags_across :
    (a b : Os) (x : ℕ)
    → system_to_sa_flags b (sa_flags_to_system b (system_to_sa_flags a x)) ≡ system_to_sa_flags a x
flags_across a b x =
    system_to_sa_flags-sa_flags_to_system b (system_to_sa_flags a x) (system_to_sa_flags-lt a x)

-- Between any two systems, the flags that reach open(2) hold a flag exactly if the program's flags
-- held all its bits on its own system.
pub open_flags_across :
    (a b : Os) (x : ℕ) (f : OpenFlag)
    → has (sa_flags_to_system b (system_to_sa_flags a x)) (open_flag b f) ≡ has x (open_flag a f)
open_flags_across a b x f =
    has-sa_flags_to_system b (system_to_sa_flags a x) f ∙ has-system_to_sa_flags a x f
