-- ===== src/Base/Bits.antt =====
-- The bit operations at variables: masks of low bits, and a word put together from its bytes.
use Prim.Native.Nat.{max, digits, bitwise, bit_and-bitwise, bit_or-bitwise}
use native.Mathlib.Nat.{pow-suc}
use zmq.Base.{
  ℕ, zero, suc, ◌+◌, ◌*◌, ◌/◌, ◌%◌, ◌^◌, ◌≤◌, ◌<◌, ◌≡◌, refl, arith, min, bit_and, bit_or, ap, ◌∙◌,
  Bool-cases, inl, inr, ◌==◌,
}

-- What the native bit operations stand for, with `pad` for the digits above the first operand.
module _ (pad : ℕ → ℕ) (op : ℕ → ℕ → ℕ) where
  digits-fuel_irrelevant :
      (k l x y : ℕ) → (x ≤ k) × (x ≤ l) → digits pad op k x y ≡ digits pad op l x y
  digits-fuel_irrelevant zero zero zero y h = refl
  digits-fuel_irrelevant (suc k) zero zero y h = refl
  digits-fuel_irrelevant zero (suc l) zero y h = refl
  digits-fuel_irrelevant (suc k) (suc l) zero y h = refl
  digits-fuel_irrelevant (suc k) (suc l) (suc x) y h =
      let above = digits-fuel_irrelevant k l (suc x / 2) (y / 2) (omega arith, omega arith) in
      ap (λ (t : ℕ). t * 2 + op (suc x % 2) (y % 2)) above
  digits-fuel_irrelevant zero l (suc x) y h = absurd (omega arith)
  digits-fuel_irrelevant (suc k) zero (suc x) y h = absurd (omega arith)

  bitwise_low :
      ((y : ℕ) → pad y ≡ pad (y / 2) * 2 + op 0 (y % 2))
      → (x y : ℕ) → bitwise pad op x y ≡ bitwise pad op (x / 2) (y / 2) * 2 + op (x % 2) (y % 2)
  bitwise_low above zero y = above y
  bitwise_low above (suc x) y =
      let less =
        digits-fuel_irrelevant x (suc x / 2) (suc x / 2) (y / 2) (omega arith, omega arith) in
      ap (λ (t : ℕ). t * 2 + op (suc x % 2) (y % 2)) less

-- The lowest digit, and the operation on what is left.
pub bit_and_step : (x y : ℕ) → bit_and x y ≡ bit_and (x / 2) (y / 2) * 2 + min (x % 2) (y % 2)
bit_and_step x y =
    rw (bit_and-bitwise x y, bit_and-bitwise (x / 2) (y / 2))
      (bitwise_low (λ t. 0) min (λ t. omega arith) x y)

pub bit_or_step : (x y : ℕ) → bit_or x y ≡ bit_or (x / 2) (y / 2) * 2 + max (x % 2) (y % 2)
bit_or_step x y =
    rw (bit_or-bitwise x y, bit_or-bitwise (x / 2) (y / 2))
      (bitwise_low (λ t. t) max (λ t. omega arith) x y)

-- Induction on the number of binary digits.
halving_fuel : (P : ℕ → Type 0) → P 0 → ((x : ℕ) → P (x / 2) → P x) → (k x : ℕ) → x ≤ k → P x
halving_fuel P base step zero x h = let e : x ≡ 0 = omega arith in rw e base
halving_fuel P base step (suc k) x h = elim (Bool-cases (x == 0)) [
  | inl e ↦ let e' : x ≡ 0 = ground arith in rw e' base
  | inr n ↦ step x (halving_fuel P base step k (x / 2) (ground arith))
]

halving : (P : ℕ → Type 0) → P 0 → ((x : ℕ) → P (x / 2) → P x) → (x : ℕ) → P x
halving P base step x = halving_fuel P base step x x (omega arith)

pub bit_and-zero : (x : ℕ) → bit_and x 0 ≡ 0
bit_and-zero =
    halving (λ x. bit_and x 0 ≡ 0) refl
      (λ (x : ℕ) (ih : bit_and (x / 2) 0 ≡ 0). omega (arith, bit_and_step x 0))

pub bit_and-one : (a : ℕ) → bit_and a 1 ≡ a % 2
bit_and-one a = omega (arith, bit_and_step a 1, bit_and-zero (a / 2))

pub bit_and_two : (a : ℕ) → bit_and a 2 ≡ a / 2 % 2 * 2
bit_and_two a = omega (arith, bit_and_step a 2, bit_and-one (a / 2))

pub bit_and_four : (a : ℕ) → bit_and a 4 ≡ a / 4 % 2 * 4
bit_and_four a = omega (arith, bit_and_step a 4, bit_and_two (a / 2))

bit_and_three : (a : ℕ) → bit_and a 3 ≡ a % 4
bit_and_three a = omega (arith, bit_and_step a 3, bit_and-one (a / 2))

bit_and_15 : (a : ℕ) → bit_and a 15 ≡ a % 16
bit_and_15 a = omega (arith, bit_and_step a 15, bit_and_step (a / 2) 7, bit_and_three (a / 2 / 2))

bit_and_63 : (a : ℕ) → bit_and a 63 ≡ a % 64
bit_and_63 a = omega (arith, bit_and_step a 63, bit_and_step (a / 2) 31, bit_and_15 (a / 2 / 2))

-- The mask of a byte.
pub bit_and_ff : (a : ℕ) → bit_and a 255 ≡ a % 256
bit_and_ff a = omega (arith, bit_and_step a 255, bit_and_step (a / 2) 127, bit_and_63 (a / 2 / 2))

pub zero-bit_or : (y : ℕ) → bit_or 0 y ≡ y
zero-bit_or y = bit_or-bitwise 0 y

pub bit_or-zero : (x : ℕ) → bit_or x 0 ≡ x
bit_or-zero =
    halving (λ x. bit_or x 0 ≡ x) refl
      (λ (x : ℕ) (ih : bit_or (x / 2) 0 ≡ x / 2). omega (arith, bit_or_step x 0))

shift_suc : (k a : ℕ) → a * 2 ^ suc k ≡ a * 2 ^ k * 2
shift_suc k a = omega (arith, ap (λ (t : ℕ). a * t) (pow-suc 2 k))

half_sum : (x b : ℕ) → bit_or (x * 2 / 2) (b / 2) ≡ x + b / 2 → bit_or (x * 2) b ≡ x * 2 + b
half_sum x b h = omega (arith, bit_or_step (x * 2) b)

-- `x << k | y` is a sum where `y` has `k` bits.
pub bit_or-shift : (k a b : ℕ) → b < 2 ^ k → bit_or (a * 2 ^ k) b ≡ a * 2 ^ k + b
bit_or-shift zero a b h =
    let e : b ≡ 0 = omega arith in rw e (bit_or-zero (a * 2 ^ 0) ∙ omega arith)
bit_or-shift (suc k) a b h =
    let below : bit_or (a * 2 ^ k) (b / 2) ≡ a * 2 ^ k + b / 2 =
      bit_or-shift k a (b / 2) (omega (arith, pow-suc 2 k)) in
    let halved : a * 2 ^ k * 2 / 2 ≡ a * 2 ^ k = omega arith in
    rw (shift_suc k a) (half_sum (a * 2 ^ k) b (rw halved below))

pub two-pow-pos : (k : ℕ) → 0 < 2 ^ k
two-pow-pos zero = omega arith
two-pow-pos (suc k) = omega (arith, pow-suc 2 k, two-pow-pos k)
