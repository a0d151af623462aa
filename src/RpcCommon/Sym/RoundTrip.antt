-- ===== src/RpcCommon/Sym/RoundTrip.antt =====
-- Error numbers across systems, through ErrnoToSym and SymToErrno.
use dockerfuse.Base.{ℕ, ◌≡◌, refl, ◌≢◌, ◌⊎◌, ◌<◌, Bool, true, ◌&&◌, List, [], ◌∷◌, arith, ◌==◌}
use dockerfuse.Base.Text.{Text, str}
use dockerfuse.Os.{Os, linux, darwin}
use dockerfuse.Os.Errno.{ErrorName, errno}
use dockerfuse.RpcCommon.Sym.{switch, sym_cases, errno_to_sym, sym_to_errno}

-- Between any two systems every error that the tables name, EOPNOTSUPP apart, arrives as itself.
pub sym_to_errno-errno_to_sym :
    (sender receiver : Os) (n : ErrorName)
    → n ≢ ErrorName.eopnotsupp
    → sym_to_errno receiver (errno_to_sym sender (errno sender n)) ≡ errno receiver n
unfolding sym_to_errno errno_to_sym
sym_to_errno-errno_to_sym linux linux ErrorName.eopnotsupp h = absurd (h refl)
sym_to_errno-errno_to_sym linux linux _ h = refl
sym_to_errno-errno_to_sym linux darwin ErrorName.eopnotsupp h = absurd (h refl)
sym_to_errno-errno_to_sym linux darwin _ h = refl
sym_to_errno-errno_to_sym darwin linux ErrorName.eopnotsupp h = absurd (h refl)
sym_to_errno-errno_to_sym darwin linux _ h = refl
sym_to_errno-errno_to_sym darwin darwin ErrorName.eopnotsupp h = absurd (h refl)
sym_to_errno-errno_to_sym darwin darwin _ h = refl

-- The exception: the sender has no case for EOPNOTSUPP where it differs from ENOTSUP.
pub eopnotsupp_arrives :
    (errno_to_sym linux (errno linux ErrorName.eopnotsupp) ≡ str "ENOTSUP")
    × (errno_to_sym darwin (errno darwin ErrorName.eopnotsupp) ≡ str "EIO")
unfolding errno_to_sym
eopnotsupp_arrives = (refl, refl)

-- The cases of the two switches agree, on one system.
abbrev all_agree : Os → List (ErrorName × Text) → Bool
all_agree os [] = true
all_agree os ((n, s) ∷ cases) = (sym_to_errno os s == errno os n) && all_agree os cases

all_agree-sym_cases : (os : Os) → all_agree os sym_cases ≡ true
unfolding sym_to_errno
all_agree-sym_cases linux = refl
all_agree-sym_cases darwin = refl

-- What a switch on the number picks is the default, or names that number.
switch_picks :
    (os : Os) (e : ℕ) (default : Text) (cases : List (ErrorName × Text))
    → all_agree os cases ≡ true
    → (switch (λ n. e == errno os n) cases default ≡ default)
      ⊎ (sym_to_errno os (switch (λ n. e == errno os n) cases default) ≡ e)
unfolding switch
switch_picks os e default [] h = ground arith
switch_picks os e default ((n, s) ∷ cases) h = ground (arith, switch_picks os e default cases)

sym_to_errno_eio : (os : Os) → sym_to_errno os (str "EIO") ≡ errno os ErrorName.eio
unfolding sym_to_errno
sym_to_errno_eio linux = refl
sym_to_errno_eio darwin = refl

-- On one system no number whatever turns into another error than EIO when it goes through
-- ErrnoToSym and SymToErrno.
pub sym_to_errno-errno_to_sym_or_eio :
    (os : Os) (e : ℕ)
    → (sym_to_errno os (errno_to_sym os e) ≡ e)
      ⊎ (sym_to_errno os (errno_to_sym os e) ≡ errno os ErrorName.eio)
unfolding errno_to_sym
sym_to_errno-errno_to_sym_or_eio os e =
    grind
      (arith, switch_picks os e (str "EIO") sym_cases (all_agree-sym_cases os), sym_to_errno_eio os)

pub errno_pos : (os : Os) (n : ErrorName) → 0 < errno os n
errno_pos linux ErrorName.e2big = omega arith
errno_pos linux _ = omega arith
errno_pos darwin ErrorName.e2big = omega arith
errno_pos darwin _ = omega arith

-- A name, known or not, never stands for 0, which is success.
pub sym_to_errno_pos : (os : Os) (sym : Text) → 0 < sym_to_errno os sym
unfolding sym_to_errno
sym_to_errno_pos os sym = errno_pos os _
