-- ===== src/Base/Bits.antt =====
-- Laws of the bitwise operations at variables, from the recursion on binary digits, and the test
-- `x & mask == mask` that the program uses on every bitmap.
use Prim.Native.Nat.{
  ℕ, zero, suc, ◌+◌, ◌*◌, ◌/◌, ◌%◌, ◌^◌, ◌≤◌, ◌<◌, min, max, bit_and, bit_or, digits,
  bit_and-bitwise, bit_or-bitwise,
}
use native.Mathlib.Nat.{le_refl, pow-suc, div-div-eq-div-mul}
use native.Mathlib.Omega.{arith}
use mathlib.Core.Path.{◌≡◌, refl, sym, ap, ◌∙◌}
use mathlib.Core.Bool.{Bool, true}
use dockerfuse.Base.Tests.{◌==◌}

-- More fuel than digits changes nothing.
digits-fuel :
    (z : ℕ → ℕ) (f : ℕ → ℕ → ℕ) (k n a b : ℕ) → a ≤ k → a ≤ n → digits z f k a b ≡ digits z f n a b
digits-fuel z f zero zero zero b h h' = refl
digits-fuel z f zero zero (suc a) b h h' = refl
digits-fuel z f zero (suc n) zero b h h' = refl
digits-fuel z f zero (suc n) (suc a) b h h' = absurd (omega arith)
digits-fuel z f (suc k) zero zero b h h' = refl
digits-fuel z f (suc k) zero (suc a) b h h' = absurd (omega arith)
digits-fuel z f (suc k) (suc n) zero b h h' = refl
digits-fuel z f (suc k) (suc n) (suc a) b h h' =
    ap (λ (d : ℕ). d * 2 + f (suc a % 2) (b % 2))
      (digits-fuel z f k n (suc a / 2) (b / 2) (omega arith) (omega arith))

pub bit_and_digit : (a b : ℕ) → bit_and a b ≡ bit_and (a / 2) (b / 2) * 2 + min (a % 2) (b % 2)
bit_and_digit zero b = omega (arith, bit_and-bitwise 0 b, bit_and-bitwise 0 (b / 2))
bit_and_digit (suc a) b = omega (
  arith,
  bit_and-bitwise (suc a) b,
  bit_and-bitwise (suc a / 2) (b / 2),
  digits-fuel (λ y. 0) min a (suc a / 2) (suc a / 2) (b / 2) (omega arith) (le_refl _),
)

pub bit_or_digit : (a b : ℕ) → bit_or a b ≡ bit_or (a / 2) (b / 2) * 2 + max (a % 2) (b % 2)
bit_or_digit zero b = omega (arith, bit_or-bitwise 0 b, bit_or-bitwise 0 (b / 2))
bit_or_digit (suc a) b = omega (
  arith,
  bit_or-bitwise (suc a) b,
  bit_or-bitwise (suc a / 2) (b / 2),
  digits-fuel (λ y. y) max a (suc a / 2) (suc a / 2) (b / 2) (omega arith) (le_refl _),
)

pub zero-bit_and : (b : ℕ) → bit_and 0 b ≡ 0
zero-bit_and b = bit_and-bitwise 0 b

pub zero-bit_or : (b : ℕ) → bit_or 0 b ≡ b
zero-bit_or b = bit_or-bitwise 0 b

-- The laws below go by induction on a bound of all the arguments: `k` digits are enough.
bit_or-zero_below : (k a : ℕ) → a ≤ k → bit_or a 0 ≡ a
bit_or-zero_below k zero h = zero-bit_or 0
bit_or-zero_below zero (suc a) h = absurd (omega arith)
bit_or-zero_below (suc k) (suc a) h =
    omega (arith, bit_or_digit (suc a) 0, bit_or-zero_below k (suc a / 2) (omega arith))

pub bit_or-zero : (a : ℕ) → bit_or a 0 ≡ a
bit_or-zero a = bit_or-zero_below a a (le_refl a)

bit_and-self_below : (k a : ℕ) → a ≤ k → bit_and a a ≡ a
bit_and-self_below k zero h = zero-bit_and 0
bit_and-self_below zero (suc a) h = absurd (omega arith)
bit_and-self_below (suc k) (suc a) h =
    omega (arith, bit_and_digit (suc a) (suc a), bit_and-self_below k (suc a / 2) (omega arith))

pub bit_and_self : (a : ℕ) → bit_and a a ≡ a
bit_and_self a = bit_and-self_below a a (le_refl a)

bit_and_half : (a b : ℕ) → bit_and a b / 2 ≡ bit_and (a / 2) (b / 2)
bit_and_half a b = omega (arith, bit_and_digit a b)

bit_or_half : (a b : ℕ) → bit_or a b / 2 ≡ bit_or (a / 2) (b / 2)
bit_or_half a b = omega (arith, bit_or_digit a b)

bit_or-bit_and_half :
    (a b c : ℕ)
    → bit_or (bit_and a c / 2) (bit_and b c / 2)
      ≡ bit_or (bit_and (a / 2) (c / 2)) (bit_and (b / 2) (c / 2))
bit_or-bit_and_half a b c = rw (bit_and_half a c, bit_and_half b c)

-- Distributivity for one digit, from distributivity for the rest.
bit_and-bit_or_digit :
    (a b c : ℕ)
    → bit_and (bit_or (a / 2) (b / 2)) (c / 2)
      ≡ bit_or (bit_and (a / 2) (c / 2)) (bit_and (b / 2) (c / 2))
    → bit_and (bit_or a b) c ≡ bit_or (bit_and a c) (bit_and b c)
bit_and-bit_or_digit a b c rest = omega (
  arith,
  bit_and_digit (bit_or a b) c,
  bit_or_digit a b,
  ap (λ (x : ℕ). bit_and x (c / 2)) (bit_or_half a b),
  rest,
  bit_or_digit (bit_and a c) (bit_and b c),
  bit_and_digit a c,
  bit_and_digit b c,
  bit_or-bit_and_half a b c,
)

bit_and-bit_or_below :
    (k a b c : ℕ) → a + b ≤ k → bit_and (bit_or a b) c ≡ bit_or (bit_and a c) (bit_and b c)
bit_and-bit_or_below k zero zero c h = rw (zero-bit_or, zero-bit_and) (sym (zero-bit_or 0))
bit_and-bit_or_below zero zero (suc b) c h = absurd (omega arith)
bit_and-bit_or_below zero (suc a) b c h = absurd (omega arith)
bit_and-bit_or_below (suc k) a b c h =
    bit_and-bit_or_digit a b c (bit_and-bit_or_below k (a / 2) (b / 2) (c / 2) (omega arith))

pub bit_and-bit_or : (a b c : ℕ) → bit_and (bit_or a b) c ≡ bit_or (bit_and a c) (bit_and b c)
bit_and-bit_or a b c = bit_and-bit_or_below (a + b) a b c (le_refl _)

bit_or-absorb_below : (k a b : ℕ) → a + b ≤ k → bit_or (bit_and a b) b ≡ b
bit_or-absorb_below k zero b h = rw zero-bit_and (zero-bit_or b)
bit_or-absorb_below zero (suc a) b h = absurd (omega arith)
bit_or-absorb_below (suc k) (suc a) b h = omega (
  arith,
  bit_or_digit (bit_and (suc a) b) b,
  bit_and_digit (suc a) b,
  ap (λ (x : ℕ). bit_or x (b / 2)) (bit_and_half (suc a) b),
  bit_or-absorb_below k (suc a / 2) (b / 2) (omega arith),
)

pub bit_or-absorb : (a b : ℕ) → bit_or (bit_and a b) b ≡ b
bit_or-absorb a b = bit_or-absorb_below (a + b) a b (le_refl _)

pub bit_or-lt_pow : (k a b : ℕ) → a < 2 ^ k → b < 2 ^ k → bit_or a b < 2 ^ k
bit_or-lt_pow zero a b h h' =
    let ea : a ≡ 0 = omega arith in let eb : b ≡ 0 = omega arith in rw (ea, eb) (omega arith)
bit_or-lt_pow (suc k) a b h h' = omega (
  arith,
  bit_or_digit a b,
  pow-suc 2 k,
  bit_or-lt_pow k (a / 2) (b / 2) (omega (arith, pow-suc 2 k)) (omega (arith, pow-suc 2 k)),
)

bit_and-double : (a b : ℕ) → bit_and a (b * 2) ≡ bit_and (a / 2) b * 2
bit_and-double a b =
    let e : b * 2 / 2 ≡ b = omega arith in
    omega (arith, bit_and_digit a (b * 2), ap (λ (x : ℕ). bit_and (a / 2) x) e)

-- A mask that ends in zeros is tested on the quotient.
pub bit_and-shift : (k a b : ℕ) → bit_and a (b * 2 ^ k) ≡ bit_and (a / 2 ^ k) b * 2 ^ k
bit_and-shift zero a b =
    let eb : b * 2 ^ 0 ≡ b = omega arith in
    let ea : a / 2 ^ 0 ≡ a = omega arith in rw (eb, ea) (omega arith)
bit_and-shift (suc k) a b =
    let eb : b * 2 ^ suc k ≡ b * 2 ^ k * 2 = omega (arith, ap (λ (p : ℕ). b * p) (pow-suc 2 k)) in
    let ea : a / 2 ^ suc k ≡ a / 2 / 2 ^ k =
      sym (div-div-eq-div-mul a 2 (2 ^ k) ∙ ap (λ (m : ℕ). a / m) (omega (arith, pow-suc 2 k))) in
    rw (eb, ea, bit_and-double a (b * 2 ^ k), bit_and-shift k (a / 2) b)
      (omega (arith, ap (λ (p : ℕ). bit_and (a / 2 / 2 ^ k) b * p) (pow-suc 2 k)))

-- Every bit of the mask is set: `x & mask == mask`.
unfoldable pub has : ℕ → ℕ → Bool
has x mask = bit_and x mask == mask

pub has-bit_or_self : (x mask : ℕ) → has (bit_or x mask) mask ≡ true
unfolding has
has-bit_or_self x mask =
    rw (bit_and-bit_or x mask mask, bit_and_self mask, bit_or-absorb x mask) (ground arith)

-- A bitmap is not changed where the new bits do not lie under the mask.
pub has-bit_or_other :
    (x new mask : ℕ) → bit_and new mask ≡ 0 → has (bit_or x new) mask ≡ has x mask
unfolding has
has-bit_or_other x new mask apart = rw (bit_and-bit_or x new mask, apart, bit_or-zero)
