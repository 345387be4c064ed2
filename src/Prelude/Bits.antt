-- ===== src/Prelude/Bits.antt =====
-- Masks and shifts at variables: `x & 0xff` and `(x << k) | y`, from the digits that the native
-- operations stand for.
use Prim.Native.Nat.{min, max, digits, bit_and-bitwise, bit_or-bitwise}
pub use Prim.Native.Nat.{bit_and, bit_or}
use native.Mathlib.Nat.{pow-suc}
use mikrotikbandwidthmonitor.Prelude.{
  ℕ, zero, suc, ◌+◌, ◌*◌, ◌/◌, ◌%◌, ◌^◌, ◌≤◌, ◌<◌, ◌≡◌, refl, ◌∙◌, Bool, true, ◌&&◌, arith,
}

-- More rounds than the first number has digits change nothing.
digits_rounds :
    (z : ℕ → ℕ) (f : ℕ → ℕ → ℕ) (n m a b : ℕ) → a ≤ n → a ≤ m → digits z f n a b ≡ digits z f m a b
digits_rounds z f zero zero a b p q = refl
digits_rounds z f zero (suc m) zero b p q = refl
digits_rounds z f zero (suc m) (suc a) b p q = absurd (omega arith)
digits_rounds z f (suc n) zero zero b p q = refl
digits_rounds z f (suc n) zero (suc a) b p q = absurd (omega arith)
digits_rounds z f (suc n) (suc m) zero b p q = refl
digits_rounds z f (suc n) (suc m) (suc a) b p q =
    omega (arith, digits_rounds z f n m (suc a / 2) (b / 2) (omega arith) (omega arith))

and_halves : (a b : ℕ) → bit_and a b ≡ bit_and (a / 2) (b / 2) * 2 + min (a % 2) (b % 2)
and_halves zero b = omega (arith, bit_and-bitwise 0 b, bit_and-bitwise 0 (b / 2))
and_halves (suc a) b = omega (
  arith,
  bit_and-bitwise (suc a) b,
  bit_and-bitwise (suc a / 2) (b / 2),
  digits_rounds (λ _. 0) min a (suc a / 2) (suc a / 2) (b / 2) (omega arith) (omega arith),
)

or_halves : (a b : ℕ) → bit_or a b ≡ bit_or (a / 2) (b / 2) * 2 + max (a % 2) (b % 2)
or_halves zero b = omega (arith, bit_or-bitwise 0 b, bit_or-bitwise 0 (b / 2))
or_halves (suc a) b = omega (
  arith,
  bit_or-bitwise (suc a) b,
  bit_or-bitwise (suc a / 2) (b / 2),
  digits_rounds (λ b. b) max a (suc a / 2) (suc a / 2) (b / 2) (omega arith) (omega arith),
)

and_zero_below : (n a : ℕ) → a ≤ n → bit_and a 0 ≡ 0
and_zero_below n zero h = omega (arith, bit_and-bitwise 0 0)
and_zero_below zero (suc a) h = absurd (omega arith)
and_zero_below (suc n) (suc a) h =
    omega (arith, and_halves (suc a) 0, and_zero_below n (suc a / 2) (omega arith))

and_zero : (a : ℕ) → bit_and a 0 ≡ 0
and_zero a = and_zero_below a a (omega arith)

and_odd : (x m h : ℕ) → m / 2 ≡ h → m % 2 ≡ 1 → bit_and x m ≡ bit_and (x / 2) h * 2 + x % 2
and_odd x m h e o = rw (← e) (omega (arith, and_halves x m))

and_fifteen : (x : ℕ) → bit_and x 15 ≡ x % 16
and_fifteen x = omega (
  arith,
  and_odd x 15 7 refl refl,
  and_odd (x / 2) 7 3 refl refl,
  and_odd (x / 2 / 2) 3 1 refl refl,
  and_odd (x / 2 / 2 / 2) 1 0 refl refl,
  and_zero (x / 2 / 2 / 2 / 2),
)

-- `x & 0xff`
pub low_byte : (x : ℕ) → bit_and x 0xff ≡ x % 256
low_byte x = omega (
  arith,
  and_odd x 255 127 refl refl,
  and_odd (x / 2) 127 63 refl refl,
  and_odd (x / 2 / 2) 63 31 refl refl,
  and_odd (x / 2 / 2 / 2) 31 15 refl refl,
  and_fifteen (x / 2 / 2 / 2 / 2),
)

or_zero_below : (n a : ℕ) → a ≤ n → bit_or a 0 ≡ a
or_zero_below n zero h = omega (arith, bit_or-bitwise 0 0)
or_zero_below zero (suc a) h = absurd (omega arith)
or_zero_below (suc n) (suc a) h =
    omega (arith, or_halves (suc a) 0, or_zero_below n (suc a / 2) (omega arith))

double_half : (a p : ℕ) → a * (p * 2) / 2 ≡ a * p
double_half a p = omega arith

half_below : (k b : ℕ) → b < 2 ^ suc k → b / 2 < 2 ^ k
half_below k b h = let h' : b < 2 ^ k * 2 = rw pow-suc at h in omega arith

-- `(a << k) | b` where `b` has at most `k` digits
pub or_shifted : (k a b : ℕ) → b < 2 ^ k → bit_or (a * 2 ^ k) b ≡ a * 2 ^ k + b
or_shifted zero a zero h = or_zero_below (a * 1) (a * 1) (omega arith) ∙ omega arith
or_shifted zero a (suc b) h = absurd (omega arith)
or_shifted (suc k) a b h = rw pow-suc (
    or_halves (a * (2 ^ k * 2)) b
    ∙ rw (double_half a (2 ^ k)) (omega (arith, or_shifted k a (b / 2) (half_below k b h))))

-- Over a small range a law is checked at every value.
abbrev pub all_below : ℕ → (ℕ → Bool) → Bool
all_below zero p = true
all_below (suc n) p = p n && all_below n p

pub all_below_sound : (n : ℕ) (p : ℕ → Bool) (x : ℕ) → all_below n p ≡ true → x < n → p x ≡ true
all_below_sound zero p x h lt = absurd (omega arith)
all_below_sound (suc n) p x h lt = ground (arith, all_below_sound n p x)
