-- ===== src/Prelude/Bits.antt =====
-- Laws of `bit_and` and `bit_or`: one binary digit at a time, fields that do not overlap, and
-- masks on a byte by evaluation.
use Prim.Native.Nat.{ℕ, zero, suc, ◌+◌, ◌-◌, ◌*◌, ◌/◌, ◌%◌, ◌^◌, ◌≤◌, ◌<◌, max}
use bilirec.Prelude.Tests.{◌==◌, ==_iff, Bool-cases}
use Prim.Native.Nat.{min, bit_and, bit_or, digits, bit_or-bitwise, bit_and-bitwise}
use mathlib.Core.Path.{◌≡◌, refl, ap, sym, ◌∙◌}
use mathlib.Core.Bool.{Bool, true, ◌&&◌}
use mathlib.Core.Logic.{inl, inr}
use native.Mathlib.Omega.{arith}
use native.Mathlib.Nat.{pow-suc}

-- Does a test hold for every number below a bound.
pub test_below : (ℕ → Bool) → ℕ → Bool
test_below test zero = true
test_below test (suc bound) = test_below test bound && test bound

pub test_below_sound :
    (test : ℕ → Bool) (bound v : ℕ) → v < bound → test_below test bound ≡ true → test v ≡ true
unfolding test_below
test_below_sound test zero v below passed = absurd (omega arith)
test_below_sound test (suc bound) v below passed = elim (Bool-cases (v == bound)) [
  | inl last ↦ let same : v ≡ bound = ground arith in rw same (ground arith)
  | inr other ↦ test_below_sound test bound v (ground arith) (ground arith)
]

-- Digits of `bit_or`, with the fuel that the native operation unfolds to.
abbrev merged : ℕ → ℕ → ℕ → ℕ
merged fuel x y = digits (λ d. d) max fuel x y

merged-more : (x y fuel : ℕ) → x ≤ fuel → merged (suc fuel) x y ≡ merged fuel x y
merged-more zero y zero h = refl
merged-more zero y (suc fuel) h = refl
merged-more (suc x) y zero h = absurd (omega arith)
merged-more (suc x) y (suc fuel) h =
    omega (arith, merged-more (suc x / 2) (y / 2) fuel (omega arith))

merged-enough : (x y fuel more : ℕ) → x ≤ fuel → merged (more + fuel) x y ≡ merged fuel x y
merged-enough x y fuel zero h =
    let same : 0 + fuel ≡ fuel = omega arith in ap (λ (n : ℕ). merged n x y) same
merged-enough x y fuel (suc more) h =
    let next : suc more + fuel ≡ suc (more + fuel) = omega arith in
    ap (λ (n : ℕ). merged n x y) next
    ∙ merged-more x y (more + fuel) (omega arith)
    ∙ merged-enough x y fuel more h

pub zero-bit_or : (y : ℕ) → bit_or 0 y ≡ y
zero-bit_or = bit_or-bitwise 0

pub bit_or_halves : (x y : ℕ) → bit_or x y ≡ max (x % 2) (y % 2) + 2 * bit_or (x / 2) (y / 2)
bit_or_halves zero y = omega (zero-bit_or y, zero-bit_or (y / 2), arith)
bit_or_halves (suc x) y =
    let half = suc x / 2 in
    let spare : x - half + half ≡ x = omega arith in
    let enough : merged x half (y / 2) ≡ merged half half (y / 2) =
      ap (λ (n : ℕ). merged n half (y / 2)) (sym spare)
      ∙ merged-enough half (y / 2) half (x - half) (omega arith) in
    omega (enough, bit_or-bitwise half (y / 2), bit_or-bitwise (suc x) y, arith)

or_zero : (bound x : ℕ) → x ≤ bound → bit_or x 0 ≡ x
or_zero zero zero h = zero-bit_or 0
or_zero zero (suc x) h = absurd (omega arith)
or_zero (suc bound) zero h = zero-bit_or 0
or_zero (suc bound) (suc x) h =
    omega (bit_or_halves (suc x) 0, or_zero bound (suc x / 2) (omega arith), arith)

pub bit_or-zero : (x : ℕ) → bit_or x 0 ≡ x
bit_or-zero x = or_zero x x (omega arith)

-- `c | b` is a sum where `c` is a multiple of `2 ^ k` and `b` is below it.
pub bit_or_disjoint : (k a b c : ℕ) → c ≡ a * 2 ^ k → b < 2 ^ k → bit_or c b ≡ c + b
bit_or_disjoint zero a b c e h = omega (arith, ap (bit_or c) zero_b, bit_or-zero c)
  where
    zero_b : b ≡ 0
    zero_b = omega arith
bit_or_disjoint (suc k) a b c e h =
    let doubled : a * 2 ^ suc k ≡ a * 2 ^ k * 2 =
      omega (arith, ap (λ (t : ℕ). a * t) (pow-suc 2 k)) in
    omega (
      arith,
      pow-suc 2 k,
      bit_or_halves c b,
      bit_or_disjoint k a (b / 2) (c / 2) (omega arith) (omega (arith, pow-suc 2 k)),
    )

-- The same for `bit_and`, whose digits end with the left number.
abbrev common : ℕ → ℕ → ℕ → ℕ
common fuel x y = digits (λ d. 0) min fuel x y

common-more : (x y fuel : ℕ) → x ≤ fuel → common (suc fuel) x y ≡ common fuel x y
common-more zero y zero h = refl
common-more zero y (suc fuel) h = refl
common-more (suc x) y zero h = absurd (omega arith)
common-more (suc x) y (suc fuel) h =
    omega (arith, common-more (suc x / 2) (y / 2) fuel (omega arith))

common-enough : (x y fuel more : ℕ) → x ≤ fuel → common (more + fuel) x y ≡ common fuel x y
common-enough x y fuel zero h =
    let same : 0 + fuel ≡ fuel = omega arith in ap (λ (n : ℕ). common n x y) same
common-enough x y fuel (suc more) h =
    let next : suc more + fuel ≡ suc (more + fuel) = omega arith in
    ap (λ (n : ℕ). common n x y) next
    ∙ common-more x y (more + fuel) (omega arith)
    ∙ common-enough x y fuel more h

bit_and_halves : (x y : ℕ) → bit_and x y ≡ min (x % 2) (y % 2) + 2 * bit_and (x / 2) (y / 2)
bit_and_halves zero y = omega (bit_and-bitwise 0 y, bit_and-bitwise 0 (y / 2), arith)
bit_and_halves (suc x) y =
    let half = suc x / 2 in
    let spare : x - half + half ≡ x = omega arith in
    let enough : common x half (y / 2) ≡ common half half (y / 2) =
      ap (λ (n : ℕ). common n half (y / 2)) (sym spare)
      ∙ common-enough half (y / 2) half (x - half) (omega arith) in
    omega (enough, bit_and-bitwise half (y / 2), bit_and-bitwise (suc x) y, arith)

and_zero : (bound x : ℕ) → x ≤ bound → bit_and x 0 ≡ 0
and_zero bound zero h = omega (bit_and-bitwise 0 0, arith)
and_zero zero (suc x) h = absurd (omega arith)
and_zero (suc bound) (suc x) h =
    omega (bit_and_halves (suc x) 0, and_zero bound (suc x / 2) (omega arith), arith)

pub mask_low_3 : (x : ℕ) → bit_and x 7 ≡ x % 8
mask_low_3 x = omega (
  arith,
  bit_and_halves x 7,
  bit_and_halves (x / 2) 3,
  bit_and_halves (x / 2 / 2) 1,
  and_zero (x / 2 / 2 / 2) (x / 2 / 2 / 2) (omega arith),
)

or_comm : (bound x y : ℕ) → x ≤ bound → bit_or x y ≡ bit_or y x
or_comm zero zero y h = zero-bit_or y ∙ sym (bit_or-zero y)
or_comm zero (suc x) y h = absurd (omega arith)
or_comm (suc bound) x y h = elim (Bool-cases (x == 0)) [
  | inl empty ↦
      let nothing : x ≡ 0 = ground arith in rw nothing (zero-bit_or y ∙ sym (bit_or-zero y))
  | inr other ↦
      omega
        (arith, bit_or_halves x y, bit_or_halves y x, or_comm bound (x / 2) (y / 2) (ground arith))
]

pub bit_or_comm : (x y : ℕ) → bit_or x y ≡ bit_or y x
bit_or_comm x y = or_comm x x y (omega arith)

agree : (f g : ℕ → ℕ) (n : ℕ) → test_below (λ b. f b == g b) n ≡ true → (b : ℕ) → b < n → f b ≡ g b
agree f g n table b h = (==_iff (f b) (g b)).0 (test_below_sound (λ b. f b == g b) n b h table)

-- Masks of a byte.
pub mask_top_bit : (b : ℕ) → b < 256 → bit_and b 0x80 ≡ b / 128 * 128
unfolding test_below
mask_top_bit = agree (λ b. bit_and b 0x80) (λ b. b / 128 * 128) 256 refl

pub mask_low_7 : (b : ℕ) → b < 256 → bit_and b 0x7f ≡ b % 128
unfolding test_below
mask_low_7 = agree (λ b. bit_and b 0x7f) (λ b. b % 128) 256 refl

pub mask_low_4 : (b : ℕ) → b < 256 → bit_and b 0x0F ≡ b % 16
unfolding test_below
mask_low_4 = agree (λ b. bit_and b 0x0F) (λ b. b % 16) 256 refl

pub mask_high_4 : (b : ℕ) → b < 256 → bit_and b 0xF0 ≡ b / 16 * 16
unfolding test_below
mask_high_4 = agree (λ b. bit_and b 0xF0) (λ b. b / 16 * 16) 256 refl

pub mask_frame_type : (b : ℕ) → b < 256 → bit_and b 0x70 ≡ b / 16 % 8 * 16
unfolding test_below
mask_frame_type = agree (λ b. bit_and b 0x70) (λ b. b / 16 % 8 * 16) 256 refl

pub set_top_bit : (b : ℕ) → b < 256 → bit_or b 0x80 ≡ b % 128 + 128
unfolding test_below
set_top_bit = agree (λ b. bit_or b 0x80) (λ b. b % 128 + 128) 256 refl
