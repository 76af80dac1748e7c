-- ===== src/Prelude/Bits.antt =====
-- `&` and `|` on numbers that are written as a high part and `k` low bits.
use Prim.Native.Nat.{
  ℕ, zero, suc, ◌+◌, ◌-◌, ◌*◌, ◌/◌, ◌%◌, ◌^◌, ◌≤◌, ◌<◌, min, max, digits, bitwise, bit_and, bit_or,
  bit_and-bitwise, bit_or-bitwise,
}
use mathlib.Core.Path.{◌≡◌, refl, sym, ap, ◌∙◌}
use native.Mathlib.Omega.{arith}
use native.Mathlib.Nat.{pow-suc, one-le-pow, zero-add}

-- The recursion on digits goes on for as long as its fuel; it needs no more than the first number.
module _ (rest : ℕ → ℕ) (digit : ℕ → ℕ → ℕ) where
  abbrev above : ℕ → ℕ → ℕ → ℕ
  above x y higher = higher * 2 + digit (x % 2) (y % 2)

  one_more_round :
      (x y fuel : ℕ) → x ≤ fuel → digits rest digit (suc fuel) x y ≡ digits rest digit fuel x y
  one_more_round zero y zero enough = refl
  one_more_round zero y (suc fuel) enough = refl
  one_more_round (suc x) y zero enough = absurd (omega arith)
  one_more_round (suc x) y (suc fuel) enough =
      ap (above (suc x) y) (one_more_round (suc x / 2) (y / 2) fuel (omega arith))

  more_rounds :
      (spare x y fuel : ℕ)
      → x ≤ fuel
      → digits rest digit (spare + fuel) x y ≡ digits rest digit fuel x y
  more_rounds zero x y fuel enough = ap (λ (t : ℕ). digits rest digit t x y) (zero-add fuel)
  more_rounds (suc spare) x y fuel enough =
      ap (λ (t : ℕ). digits rest digit t x y) (suc_out spare fuel)
      ∙ one_more_round x y (spare + fuel) (omega arith)
      ∙ more_rounds spare x y fuel enough
    where
      suc_out : (m n : ℕ) → suc m + n ≡ suc (m + n)
      suc_out m n = omega arith

  lowest_digit :
      (x y : ℕ)
      → bitwise rest digit (suc x) y ≡ above (suc x) y (bitwise rest digit (suc x / 2) (y / 2))
  lowest_digit x y =
      let spare : x ≡ x - suc x / 2 + suc x / 2 = omega arith in
      ap (λ (t : ℕ). above (suc x) y (digits rest digit t (suc x / 2) (y / 2))) spare
      ∙ ap (above (suc x) y)
          (more_rounds (x - suc x / 2) (suc x / 2) (y / 2) (suc x / 2) (omega arith))

pub bit_and_lowest : (x y : ℕ) → bit_and x y ≡ min (x % 2) (y % 2) + 2 * bit_and (x / 2) (y / 2)
bit_and_lowest zero y = omega (arith, bit_and-bitwise zero y, bit_and-bitwise zero (y / 2))
bit_and_lowest (suc x) y = omega (
  arith,
  bit_and-bitwise (suc x) y,
  bit_and-bitwise (suc x / 2) (y / 2),
  lowest_digit (λ _. zero) min x y,
)

pub bit_or_lowest : (x y : ℕ) → bit_or x y ≡ max (x % 2) (y % 2) + 2 * bit_or (x / 2) (y / 2)
bit_or_lowest zero y = omega (arith, bit_or-bitwise zero y, bit_or-bitwise zero (y / 2))
bit_or_lowest (suc x) y = omega (
  arith,
  bit_or-bitwise (suc x) y,
  bit_or-bitwise (suc x / 2) (y / 2),
  lowest_digit (λ t. t) max x y,
)

double : (q k : ℕ) → q * 2 ^ suc k ≡ 2 * (q * 2 ^ k)
double q k = omega (arith, ap (λ (t : ℕ). q * t) (pow-suc 2 k))

half : (q k r : ℕ) → (q * 2 ^ suc k + r) / 2 ≡ q * 2 ^ k + r / 2
half q k r = omega (arith, double q k)

last : (q k r : ℕ) → (q * 2 ^ suc k + r) % 2 ≡ r % 2
last q k r = omega (arith, double q k)

parts_zero :
    (op : ℕ → ℕ → ℕ) (q p : ℕ)
    → op 0 0 ≡ 0
    → op (q * 2 ^ 0 + 0) (p * 2 ^ 0 + 0) ≡ op q p * 2 ^ 0 + op 0 0
parts_zero op q p e =
    let eq : q * 2 ^ 0 + 0 ≡ q = omega arith in
    let ep : p * 2 ^ 0 + 0 ≡ p = omega arith in rw (eq, ep) (omega (arith, e))

-- Both operations go by parts.
pub bit_and_parts :
    (k q r p s : ℕ)
    → r < 2 ^ k
    → s < 2 ^ k
    → bit_and (q * 2 ^ k + r) (p * 2 ^ k + s) ≡ bit_and q p * 2 ^ k + bit_and r s
bit_and_parts zero q zero p zero hr hs = parts_zero bit_and q p refl
bit_and_parts zero q (suc r) p s hr hs = absurd (omega arith)
bit_and_parts zero q r p (suc s) hr hs = absurd (omega arith)
bit_and_parts (suc k) q r p s hr hs = ground (
  arith,
  double (bit_and q p) k,
  half q k r,
  half p k s,
  last q k r,
  last p k s,
  bit_and_lowest (q * 2 ^ suc k + r) (p * 2 ^ suc k + s),
  bit_and_lowest r s,
  bit_and_parts k q (r / 2) p (s / 2) (omega (arith, pow-suc 2 k)) (omega (arith, pow-suc 2 k)),
)

pub bit_or_parts :
    (k q r p s : ℕ)
    → r < 2 ^ k
    → s < 2 ^ k
    → bit_or (q * 2 ^ k + r) (p * 2 ^ k + s) ≡ bit_or q p * 2 ^ k + bit_or r s
bit_or_parts zero q zero p zero hr hs = parts_zero bit_or q p refl
bit_or_parts zero q (suc r) p s hr hs = absurd (omega arith)
bit_or_parts zero q r p (suc s) hr hs = absurd (omega arith)
bit_or_parts (suc k) q r p s hr hs = ground (
  arith,
  double (bit_or q p) k,
  half q k r,
  half p k s,
  last q k r,
  last p k s,
  bit_or_lowest (q * 2 ^ suc k + r) (p * 2 ^ suc k + s),
  bit_or_lowest r s,
  bit_or_parts k q (r / 2) p (s / 2) (omega (arith, pow-suc 2 k)) (omega (arith, pow-suc 2 k)),
)

below : (n a : ℕ) → suc a ≤ suc n → suc a / 2 ≤ n
below n a h = omega arith

zeros : (n x : ℕ) → x ≤ n → (bit_or x 0 ≡ x) × (bit_and x 0 ≡ 0)
zeros n zero h = (refl, refl)
zeros (suc n) (suc x) h =
    let (set, kept) = zeros n (suc x / 2) (below n x h) in
    omega (arith, set, kept, bit_or_lowest (suc x) 0, bit_and_lowest (suc x) 0)
zeros zero (suc x) h = absurd (omega arith)

pub bit_or-zero : (x : ℕ) → bit_or x 0 ≡ x
bit_or-zero x = (zeros x x (omega arith)).0

pub bit_and-zero : (x : ℕ) → bit_and x 0 ≡ 0
bit_and-zero x = (zeros x x (omega arith)).1

zero-bit_or : (b : ℕ) → bit_or 0 b ≡ b
zero-bit_or b = bit_or-bitwise 0 b

-- `|` of two fields that do not meet is their sum.
pub bit_or_fields : (k q r : ℕ) → r < 2 ^ k → bit_or (q * 2 ^ k) r ≡ q * 2 ^ k + r
bit_or_fields k q r h =
    let low = bit_or_parts k q 0 0 r (omega (arith, one-le-pow k 2)) h in
    let high : q * 2 ^ k + 0 ≡ q * 2 ^ k = omega arith in
    let none : 0 * 2 ^ k + r ≡ r = omega arith in
    ap (λ (t : ℕ). bit_or t r) (sym high)
    ∙ ap (bit_or (q * 2 ^ k + 0)) (sym none)
    ∙ low
    ∙ omega (arith, zero-bit_or r, ap (λ (t : ℕ). t * 2 ^ k) (bit_or-zero q))

-- `&` with `k` ones keeps what fits `k` bits.
pub bit_and_ones : (k r : ℕ) → r < 2 ^ k → bit_and r (2 ^ k - 1) ≡ r
bit_and_ones zero r h = omega (arith, bit_and-zero r)
bit_and_ones (suc k) r h =
    let ones : (2 ^ suc k - 1) / 2 ≡ 2 ^ k - 1 = omega (arith, pow-suc 2 k, one-le-pow k 2) in
    let one : (2 ^ suc k - 1) % 2 ≡ 1 = omega (arith, pow-suc 2 k, one-le-pow k 2) in
    bit_and_lowest r (2 ^ suc k - 1)
    ∙ ap (λ (t : ℕ). min (r % 2) ((2 ^ suc k - 1) % 2) + 2 * bit_and (r / 2) t) ones
    ∙ omega (arith, one, bit_and_ones k (r / 2) (omega (arith, pow-suc 2 k)))

bit_and-bit_or_fuel : (n a x b : ℕ) → a ≤ n → bit_and x a ≡ a → bit_and (bit_or x b) a ≡ a
bit_and-bit_or_fuel n zero x b h e = bit_and-zero (bit_or x b)
bit_and-bit_or_fuel zero (suc a) x b h e = absurd (omega arith)
bit_and-bit_or_fuel (suc n) (suc a) x b h e =
    let halves : bit_or x b / 2 ≡ bit_or (x / 2) (b / 2) = omega (arith, bit_or_lowest x b) in
    bit_and_lowest (bit_or x b) (suc a)
    ∙ ap (λ (t : ℕ). min (bit_or x b % 2) (suc a % 2) + 2 * bit_and t (suc a / 2)) halves
    ∙ omega (
      arith,
      bit_or_lowest x b,
      bit_and_lowest x (suc a),
      e,
      bit_and-bit_or_fuel n (suc a / 2) (x / 2) (b / 2) (below n a h)
          (omega (arith, bit_and_lowest x (suc a))),
    )

-- `|` keeps the bits that are set.
pub bit_and-bit_or : (a x b : ℕ) → bit_and x a ≡ a → bit_and (bit_or x b) a ≡ a
bit_and-bit_or a x b = bit_and-bit_or_fuel a a x b (omega arith)

bit_and_self_fuel : (n a : ℕ) → a ≤ n → bit_and a a ≡ a
bit_and_self_fuel n zero h = refl
bit_and_self_fuel zero (suc a) h = absurd (omega arith)
bit_and_self_fuel (suc n) (suc a) h =
    omega (arith, bit_and_lowest (suc a) (suc a), bit_and_self_fuel n (suc a / 2) (below n a h))

pub bit_and_self : (a : ℕ) → bit_and a a ≡ a
bit_and_self a = bit_and_self_fuel a a (omega arith)

module _ (k q r : ℕ) (fits : r < 2 ^ k) where
  -- What a mask of `k` ones takes out of a number, and what a mask of `w` ones above these does.
  pub bit_and_low : bit_and (q * 2 ^ k + r) (2 ^ k - 1) ≡ r
  bit_and_low =
      let mask : 0 * 2 ^ k + (2 ^ k - 1) ≡ 2 ^ k - 1 = omega arith in
      ap (bit_and (q * 2 ^ k + r)) (sym mask)
      ∙ bit_and_parts k q r 0 (2 ^ k - 1) fits (omega (arith, one-le-pow k 2))
      ∙ omega (arith, ap (λ (t : ℕ). t * 2 ^ k) (bit_and-zero q), bit_and_ones k r fits)

  pub bit_and_high : (w : ℕ) → q < 2 ^ w → bit_and (q * 2 ^ k + r) ((2 ^ w - 1) * 2 ^ k) ≡ q * 2 ^ k
  bit_and_high w h =
      let mask : (2 ^ w - 1) * 2 ^ k + 0 ≡ (2 ^ w - 1) * 2 ^ k = omega arith in
      ap (bit_and (q * 2 ^ k + r)) (sym mask)
      ∙ bit_and_parts k q r (2 ^ w - 1) 0 fits (omega (arith, one-le-pow k 2))
      ∙ omega (arith, ap (λ (t : ℕ). t * 2 ^ k) (bit_and_ones w q h), bit_and-zero r)
