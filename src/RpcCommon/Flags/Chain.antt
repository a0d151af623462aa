-- ===== src/RpcCommon/Flags/Chain.antt =====
-- A chain of `if flagsIn&tested == tested { flags |= added }` over all the flags, for any two
-- numberings.
use dockerfuse.Base.{ℕ, ◌≡◌, refl, ◌<◌, ◌^◌, false, ◌||◌, bit_and, List, [], ◌∷◌, ◌++◌, All, arith}
use dockerfuse.Base.Bits.{has, has-bit_or_self, has-bit_or_other, bit_or-lt_pow, zero-bit_and}
use dockerfuse.Os.{Os, linux, darwin}
use dockerfuse.Os.Flags.{OpenFlag, open_flag, wronly, rdwr, append, async, creat, excl, noctty}
use dockerfuse.Os.Flags.{nonblock, sync, trunc}
use dockerfuse.RpcCommon.Flags.Defs.{agnostic_flag, add_flag}

-- The order in which both functions test the flags, split at one of them.
unfoldable pub before : OpenFlag → List OpenFlag
before wronly = []
before rdwr = wronly ∷ []
before append = wronly ∷ rdwr ∷ []
before async = wronly ∷ rdwr ∷ append ∷ []
before creat = wronly ∷ rdwr ∷ append ∷ async ∷ []
before excl = wronly ∷ rdwr ∷ append ∷ async ∷ creat ∷ []
before noctty = wronly ∷ rdwr ∷ append ∷ async ∷ creat ∷ excl ∷ []
before nonblock = wronly ∷ rdwr ∷ append ∷ async ∷ creat ∷ excl ∷ noctty ∷ []
before sync = wronly ∷ rdwr ∷ append ∷ async ∷ creat ∷ excl ∷ noctty ∷ nonblock ∷ []
before trunc = wronly ∷ rdwr ∷ append ∷ async ∷ creat ∷ excl ∷ noctty ∷ nonblock ∷ sync ∷ []

unfoldable pub after : OpenFlag → List OpenFlag
after wronly = rdwr ∷ append ∷ async ∷ creat ∷ excl ∷ noctty ∷ nonblock ∷ sync ∷ trunc ∷ []
after rdwr = append ∷ async ∷ creat ∷ excl ∷ noctty ∷ nonblock ∷ sync ∷ trunc ∷ []
after append = async ∷ creat ∷ excl ∷ noctty ∷ nonblock ∷ sync ∷ trunc ∷ []
after async = creat ∷ excl ∷ noctty ∷ nonblock ∷ sync ∷ trunc ∷ []
after creat = excl ∷ noctty ∷ nonblock ∷ sync ∷ trunc ∷ []
after excl = noctty ∷ nonblock ∷ sync ∷ trunc ∷ []
after noctty = nonblock ∷ sync ∷ trunc ∷ []
after nonblock = sync ∷ trunc ∷ []
after sync = trunc ∷ []
after trunc = []

-- No two flags of a numbering share a bit with `f`.
abbrev pub Apart : (OpenFlag → ℕ) → OpenFlag → Type 0
Apart to f =
    All (λ g. bit_and (to g) (to f) ≡ 0) (before f) × All (λ g. bit_and (to g) (to f) ≡ 0) (after f)

module _ (from to : OpenFlag → ℕ) (x : ℕ) where
  unfoldable pub add_flags : List OpenFlag → ℕ → ℕ
  add_flags [] flags = flags
  add_flags (g ∷ gs) flags = add_flags gs (add_flag x (from g) (to g) flags)

  add_flags-append :
      (gs hs : List OpenFlag) (flags : ℕ)
      → add_flags (gs ++ hs) flags ≡ add_flags hs (add_flags gs flags)
  unfolding add_flags
  add_flags-append [] hs flags = refl
  add_flags-append (g ∷ gs) hs flags = add_flags-append gs hs (add_flag x (from g) (to g) flags)

  -- Flags that are apart from `f` leave it alone.
  has-add_flags_apart :
      (f : OpenFlag) (gs : List OpenFlag) (flags : ℕ)
      → All (λ g. bit_and (to g) (to f) ≡ 0) gs
      → has (add_flags gs flags) (to f) ≡ has flags (to f)
  unfolding add_flags add_flag
  has-add_flags_apart f [] flags h = refl
  has-add_flags_apart f (g ∷ gs) flags h = ground (
    arith,
    has-add_flags_apart f gs (add_flag x (from g) (to g) flags) h.1,
    has-bit_or_other flags (to g) (to f) h.0,
  )

  pub add_flags-lt_pow :
      (k : ℕ) (gs : List OpenFlag) (flags : ℕ)
      → All (λ g. to g < 2 ^ k) gs
      → flags < 2 ^ k
      → add_flags gs flags < 2 ^ k
  unfolding add_flags add_flag
  add_flags-lt_pow k [] flags h fits = fits
  add_flags-lt_pow k (g ∷ gs) flags h fits =
      add_flags-lt_pow k gs (add_flag x (from g) (to g) flags) h.1
        (ground (arith, bit_or-lt_pow k flags (to g)))

  has-add_flag_self :
      (f : OpenFlag) (flags : ℕ)
      → has (add_flag x (from f) (to f) flags) (to f) ≡ (has x (from f) || has flags (to f))
  unfolding add_flag
  has-add_flag_self f flags = ground (arith, has-bit_or_self flags (to f))

  has-zero : (f : OpenFlag) → 0 < to f → has 0 (to f) ≡ false
  unfolding has
  has-zero f h = ground (arith, zero-bit_and (to f))

  -- In the whole chain each flag answers for itself.
  pub has-add_flags :
      (f : OpenFlag)
      → 0 < to f
      → Apart to f
      → has (add_flags (before f ++ f ∷ after f) 0) (to f) ≡ has x (from f)
  unfolding add_flags
  has-add_flags f positive apart =
      rw
        (
          add_flags-append (before f) (f ∷ after f) 0,
          has-add_flags_apart f (after f) (add_flag x (from f) (to f) (add_flags (before f) 0))
              apart.1,
          has-add_flag_self f (add_flags (before f) 0),
          has-add_flags_apart f (before f) 0 apart.0,
          has-zero f positive,
        )
        (ground arith)

pub Apart-agnostic_flag : (f : OpenFlag) → (0 < agnostic_flag f) × Apart agnostic_flag f
unfolding before after
Apart-agnostic_flag wronly = omega arith
Apart-agnostic_flag _ = omega arith

pub Apart-open_flag : (os : Os) (f : OpenFlag) → (0 < open_flag os f) × Apart (open_flag os) f
unfolding before after
Apart-open_flag linux wronly = omega arith
Apart-open_flag linux _ = omega arith
Apart-open_flag darwin wronly = omega arith
Apart-open_flag darwin _ = omega arith
