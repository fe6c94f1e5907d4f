-- ===== src/Prelude/Bits.antt =====
-- `|` and `&` on numbers: an `|` of parts that do not overlap is a sum, and masks of low bits are
-- remainders.
use Prim.Native.Nat.{
  ℕ, zero, suc, ◌+◌, ◌-◌, ◌*◌, ◌/◌, ◌%◌, ◌^◌, ◌≤◌, ◌<◌, min, max, bit_and, bit_or, digits,
  bit_or-bitwise, bit_and-bitwise,
}
use mathlib.Core.Path.{◌≡◌, refl, sym, ◌∙◌, ap}
use mathlib.Core.Bool.{Bool, true, ◌&&◌}
use native.Mathlib.Omega.{arith}
use native.Mathlib.Nat.{pow-suc, mod-lt, mod-eq_of_lt, add-mul-mod_self_right, div-add-mod}
use existent_os.Prelude.Tests.{◌==◌, ==_iff}

-- A test that holds of all numbers below a bound, by evaluation.
unfoldable pub passes : (ℕ → Bool) → ℕ → Bool
passes p zero = true
passes p (suc bound) = passes p bound && p bound

pub passes_at : (p : ℕ → Bool) (bound : ℕ) {x : ℕ} → x < bound → passes p bound ≡ true → p x ≡ true
unfolding passes
passes_at p zero small all = absurd (omega arith)
passes_at p (suc bound) {x} small all = ground (arith, passes_at p bound {x = x})

-- What `|` and `&` are defined by: `f` on each pair of digits, and `z` once the first number is
-- used up.
module _ (z : ℕ → ℕ) (f : ℕ → ℕ → ℕ) where
  digits-zero : (rounds b : ℕ) → digits z f rounds 0 b ≡ z b
  digits-zero zero b = refl
  digits-zero (suc rounds) b = refl

  -- The number of rounds may be any that is large enough.
  digits_enough : (b a r s : ℕ) → a ≤ r → a ≤ s → digits z f r a b ≡ digits z f s a b
  digits_enough b zero r s hr hs = digits-zero r b ∙ sym (digits-zero s b)
  digits_enough b (suc a) zero s hr hs = absurd (omega arith)
  digits_enough b (suc a) (suc r) zero hr hs = absurd (omega arith)
  digits_enough b (suc a) (suc r) (suc s) hr hs =
      omega (arith, digits_enough (b / 2) (suc a / 2) r s (omega arith) (omega arith))

  -- The lowest digit, for an operation that has this definition.
  halves :
      (op : ℕ → ℕ → ℕ)
      → ((x y : ℕ) → op x y ≡ digits z f x x y)
      → ((y : ℕ) → z y ≡ z (y / 2) * 2 + f 0 (y % 2))
      → (x y : ℕ) → op x y ≡ op (x / 2) (y / 2) * 2 + f (x % 2) (y % 2)
  halves op defined start zero y = omega (arith, defined 0 y, defined 0 (y / 2), start y)
  halves op defined start (suc x) y =
      let half = digits_enough (y / 2) (suc x / 2) x (suc x / 2) (omega arith) (omega arith) in
      omega (arith, defined (suc x) y, defined (suc x / 2) (y / 2), half)

bit_or-halves : (a b : ℕ) → bit_or a b ≡ bit_or (a / 2) (b / 2) * 2 + max (a % 2) (b % 2)
bit_or-halves = halves (λ y. y) max bit_or bit_or-bitwise (λ y. omega arith)

bit_and-halves : (a b : ℕ) → bit_and a b ≡ bit_and (a / 2) (b / 2) * 2 + min (a % 2) (b % 2)
bit_and-halves = halves (λ y. 0) min bit_and bit_and-bitwise (λ y. omega arith)

-- Zero as the second operand; the numbers up to a bound.
bit_or-zero : (bound x : ℕ) → x ≤ bound → bit_or x 0 ≡ x
bit_or-zero bound zero small = refl
bit_or-zero zero (suc x) small = absurd (omega arith)
bit_or-zero (suc bound) (suc x) small =
    omega (arith, bit_or-halves (suc x) 0, bit_or-zero bound (suc x / 2) (omega arith))

bit_and-zero : (bound x : ℕ) → x ≤ bound → bit_and x 0 ≡ 0
bit_and-zero bound zero small = refl
bit_and-zero zero (suc x) small = absurd (omega arith)
bit_and-zero (suc bound) (suc x) small =
    omega (arith, bit_and-halves (suc x) 0, bit_and-zero bound (suc x / 2) (omega arith))

-- A field shifted by `k` and one of `k` bits do not overlap.
pub bit_or-shifted : (k q r : ℕ) → r < 2 ^ k → bit_or (q * 2 ^ k) r ≡ q * 2 ^ k + r
bit_or-shifted zero q r h =
    let e : r ≡ 0 = omega arith in rw e (omega (arith, bit_or-zero (q * 1) (q * 1) (omega arith)))
bit_or-shifted (suc k) q r h =
    let double : 2 ^ suc k ≡ 2 ^ k * 2 = pow-suc 2 k in
    let field : q * 2 ^ suc k ≡ q * 2 ^ k * 2 = ap (λ (t : ℕ). q * t) double ∙ omega arith in
    let half : q * 2 ^ suc k / 2 ≡ q * 2 ^ k = omega (arith, field) in
    let low : q * 2 ^ suc k % 2 ≡ 0 = omega (arith, field) in
    bit_or-halves (q * 2 ^ suc k) r
    ∙ rw (half, low) (omega (arith, field, bit_or-shifted k q (r / 2) (omega (arith, double))))

-- A byte with its two lowest bits cleared.
word_mask_table : passes (λ x. bit_and x 0xfc == x - x % 4) 256 ≡ true
unfolding passes
word_mask_table = refl

pub bit_and-word_mask : (x : ℕ) → x < 256 → bit_and x 0xfc ≡ x - x % 4
bit_and-word_mask x h = (==_iff _ _).0 (passes_at _ 256 h word_mask_table)

low_two_table : passes (λ x. bit_and x 0x3 == x % 4 && bit_and x 0x2 == x % 4 / 2 * 2) 256 ≡ true
unfolding passes
low_two_table = refl

pub bit_and-low_two : (x : ℕ) → x < 256 → (bit_and x 0x3 ≡ x % 4) × (bit_and x 0x2 ≡ x % 4 / 2 * 2)
bit_and-low_two x h = ground (
  arith,
  passes_at (λ (x : ℕ). bit_and x 0x3 == x % 4 && bit_and x 0x2 == x % 4 / 2 * 2) 256 {x = x} h
      low_two_table,
)

mod_double : (a p : ℕ) → 0 < p → a % (p * 2) ≡ a / 2 % p * 2 + a % 2
mod_double a p h =
    let q = a / 2 / p in
    let r = a / 2 % p in
    let half : a / 2 ≡ q * p + r = omega (arith, div-add-mod (a / 2) p) in
    let low : r < p = mod-lt (a / 2) h in
    let whole : a ≡ (r * 2 + a % 2) + q * (p * 2) = omega (arith, half) in
    ap (λ (t : ℕ). t % (p * 2)) whole
    ∙ add-mul-mod_self_right (r * 2 + a % 2) q (p * 2)
    ∙ mod-eq_of_lt (omega (arith, low))

-- A mask of `k` ones keeps the `k` lowest digits.
pub bit_and-ones : (k a m : ℕ) → m + 1 ≡ 2 ^ k → bit_and a m ≡ a % 2 ^ k
bit_and-ones zero a m e =
    let none_set : m ≡ 0 = omega arith in rw none_set (bit_and-zero a a (omega arith) ∙ omega arith)
bit_and-ones (suc k) a m e =
    let double : 2 ^ suc k ≡ 2 ^ k * 2 = pow-suc 2 k in
    let rest : bit_and (a / 2) (m / 2) ≡ a / 2 % 2 ^ k =
      bit_and-ones k (a / 2) (m / 2) (omega (arith, double)) in
    bit_and-halves a m
    ∙ rw (rest, double) (sym (mod_double a (2 ^ k) (omega (arith, double)) ∙ omega arith))
