-- ===== src/Sys/Devices.antt =====
-- `makedev` packs two 32-bit numbers into 64 bits, each of them in two pieces, and loses nothing.
use Prim.Native.Nat.{bit_and, bit_or}
use zevory_linux.Prelude.{ℕ, ◌+◌, ◌*◌, ◌/◌, ◌%◌, ◌^◌, ◌<◌, ◌≡◌, ap, ◌∙◌, sym, arith}
use zevory_linux.Prelude.Bits.{bit_and_low, bit_and_high, bit_or_parts, bit_or_fields, bit_or-zero}
use zevory_linux.Sys.{makedev}

-- What the four masks take out of 32-bit numbers
module _ (a : ℕ) (fits : a < 2 ^ 32) where
  high_12 : bit_and a 0xffff_f000 ≡ a / 2 ^ 12 * 2 ^ 12
  high_12 =
      let whole : a / 2 ^ 12 * 2 ^ 12 + a % 2 ^ 12 ≡ a = omega arith in
      ap (λ (t : ℕ). bit_and t 0xffff_f000) (sym whole)
      ∙ bit_and_high 12 (a / 2 ^ 12) (a % 2 ^ 12) (omega arith) 20 (omega arith)

  high_8 : bit_and a 0xffff_ff00 ≡ a / 2 ^ 8 * 2 ^ 8
  high_8 =
      let whole : a / 2 ^ 8 * 2 ^ 8 + a % 2 ^ 8 ≡ a = omega arith in
      ap (λ (t : ℕ). bit_and t 0xffff_ff00) (sym whole)
      ∙ bit_and_high 8 (a / 2 ^ 8) (a % 2 ^ 8) (omega arith) 24 (omega arith)

low_12 : (a : ℕ) → bit_and a 0x0000_0fff ≡ a % 2 ^ 12
low_12 a =
    let whole : a / 2 ^ 12 * 2 ^ 12 + a % 2 ^ 12 ≡ a = omega arith in
    ap (λ (t : ℕ). bit_and t 0xfff) (sym whole)
    ∙ bit_and_low 12 (a / 2 ^ 12) (a % 2 ^ 12) (omega arith)

low_8 : (a : ℕ) → bit_and a 0x0000_00ff ≡ a % 2 ^ 8
low_8 a =
    let whole : a / 2 ^ 8 * 2 ^ 8 + a % 2 ^ 8 ≡ a = omega arith in
    ap (λ (t : ℕ). bit_and t 0xff) (sym whole) ∙ bit_and_low 8 (a / 2 ^ 8) (a % 2 ^ 8) (omega arith)

-- The four pieces do not meet, so `|` adds them.
pieces :
    (a b c d : ℕ)
    → b < 2 ^ 12
    → c < 2 ^ 24
    → d < 2 ^ 8
    → bit_or (bit_or (bit_or (a * 2 ^ 44) (b * 2 ^ 8)) (c * 2 ^ 20)) d
      ≡ a * 2 ^ 44 + c * 2 ^ 20 + b * 2 ^ 8 + d
pieces a b c d hb hc hd =
    let ab = bit_or_fields 44 a (b * 2 ^ 8) (omega arith) in
    let shifted : a * 2 ^ 44 + b * 2 ^ 8 ≡ a * 2 ^ 24 * 2 ^ 20 + b * 2 ^ 8 = omega arith in
    let minor : c * 2 ^ 20 ≡ c * 2 ^ 20 + 0 = omega arith in
    let abc = bit_or_parts 20 (a * 2 ^ 24) (b * 2 ^ 8) c 0 (omega arith) (omega arith) in
    let ac = bit_or_fields 24 a c hc in
    let up_to : bit_or (bit_or (a * 2 ^ 44) (b * 2 ^ 8)) (c * 2 ^ 20)
        ≡ (a * 2 ^ 36 + c * 2 ^ 12 + b) * 2 ^ 8 =
      ap (λ (t : ℕ). bit_or t (c * 2 ^ 20)) (ab ∙ shifted)
      ∙ ap (bit_or (a * 2 ^ 24 * 2 ^ 20 + b * 2 ^ 8)) minor
      ∙ abc
      ∙ omega (arith, ac, bit_or-zero (b * 2 ^ 8)) in
    ap (λ (t : ℕ). bit_or t d) up_to
    ∙ bit_or_fields 8 (a * 2 ^ 36 + c * 2 ^ 12 + b) d hd
    ∙ omega arith

module _ (major minor : ℕ) (major_fits : major < 2 ^ 32) (minor_fits : minor < 2 ^ 32) where
  makedev_lem :
      makedev major minor
      ≡ major / 2 ^ 12 * 2 ^ 44 + minor / 2 ^ 8 * 2 ^ 20 + major % 2 ^ 12 * 2 ^ 8 + minor % 2 ^ 8
  unfolding makedev
  makedev_lem =
      rw (high_12 major major_fits, low_12 major, high_8 minor minor_fits, low_8 minor)
        (rw (shift_44, shift_20)
          (pieces (major / 2 ^ 12) (major % 2 ^ 12) (minor / 2 ^ 8) (minor % 2 ^ 8) (omega arith)
            (omega arith) (omega arith)))
    where
      shift_44 : major / 2 ^ 12 * 2 ^ 12 * 2 ^ 32 ≡ major / 2 ^ 12 * 2 ^ 44
      shift_44 = omega arith

      shift_20 : minor / 2 ^ 8 * 2 ^ 8 * 2 ^ 12 ≡ minor / 2 ^ 8 * 2 ^ 20
      shift_20 = omega arith

  -- For all 32-bit numbers major and minor, makedev fits 64 bits and loses nothing: the major
  -- number is read back from bits 44 and up above bits 8 to 19, and the minor number from bits 20
  -- to 43 above bits 0 to 7.
  pub makedev_roundtrip :
      (makedev major minor < 2 ^ 64)
      × (makedev major minor / 2 ^ 44 * 2 ^ 12 + makedev major minor / 2 ^ 8 % 2 ^ 12 ≡ major)
      × (makedev major minor / 2 ^ 20 % 2 ^ 24 * 2 ^ 8 + makedev major minor % 2 ^ 8 ≡ minor)
  makedev_roundtrip = omega (arith, makedev_lem)
