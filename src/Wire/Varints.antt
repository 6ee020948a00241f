-- ===== src/Wire/Varints.antt =====
-- What `writeVarint` writes, and how `ReadVarint` reads it back.
use Prim.Native.Nat.{◌^◌}
use native.Mathlib.Nat.{div-add-mod, mul-le-mul_right}
use native.Mathlib.Numerals.{towards_suc}
use mathlib.Core.WellFounded.{Acc}
use bilirec.Prelude.{
  ℕ, zero, suc, ◌+◌, ◌*◌, ◌/◌, ◌%◌, ◌<◌, ◌≤◌, bit_and, bit_or, some, List, [], ◌∷◌, ◌++◌,
  if◌then◌else◌, ltb, ◌≡◌, refl, ap, ◌∙◌, arith, append_assoc,
}
use bilirec.Prelude.Bits.{mask_low_7, mask_top_bit, set_top_bit, bit_or_disjoint, bit_or_comm}
use bilirec.Wire.Reader.{add_group, read_varint_loop, read_varint}
use bilirec.Wire.Writer.{write_varint_loop, write_varint}

abbrev pub IsU64 : ℕ → Type 0
IsU64 v = v < 0x1_0000_0000_0000_0000

-- Seven bits a byte, the lowest first, in at most `more + 1` bytes.
unfoldable pub sevens : ℕ → ℕ → List ℕ
sevens zero v = v ∷ []
sevens (suc more) v =
    let upper = sevens more (v / 128) in if ltb 127 v then (v % 128 + 128) ∷ upper else (v ∷ [])

low_byte : (v : ℕ) → bit_or (v % 256) 0x80 ≡ v % 128 + 128
low_byte v = set_top_bit (v % 256) (omega arith) ∙ omega arith

write_varint_loop-sevens :
    (more : ℕ) (buf : List ℕ) (v : ℕ) (w : Acc ◌<◌ v)
    → v < 128 ^ suc more
    → write_varint_loop buf v w ≡ buf ++ sevens more v
unfolding write_varint_loop sevens
write_varint_loop-sevens zero buf v (Acc.intro _ below) h = ground arith
write_varint_loop-sevens (suc more) buf v (Acc.intro _ below) h =
    let first : List ℕ = (v % 128 + 128) ∷ [] in
    grind (
      arith,
      low_byte v,
      λ (w : Acc ◌<◌ (v / 128)).
          write_varint_loop-sevens more (buf ++ first) (v / 128) w (omega arith),
      append_assoc buf first (sevens more (v / 128)),
    )

pub write_varint-sevens : (buf : List ℕ) (v : ℕ) → IsU64 v → write_varint buf v ≡ buf ++ sevens 9 v
unfolding write_varint
write_varint-sevens buf v h = write_varint_loop-sevens 9 buf v _ (omega arith)

add_group_lem :
    (result b g shift : ℕ)
    → b < 256
    → b % 128 ≡ g
    → result < 2 ^ shift
    → IsU64 (g * 2 ^ shift)
    → add_group result b shift ≡ result + g * 2 ^ shift
unfolding add_group
add_group_lem result b g shift hb hg hr fits =
    let low : bit_and b 0x7f ≡ g = mask_low_7 b hb ∙ hg in
    let kept : bit_and b 0x7f * 2 ^ shift % 0x1_0000_0000_0000_0000 ≡ g * 2 ^ shift =
      rw low (omega arith) in
    rw kept (
      bit_or_comm result (g * 2 ^ shift)
      ∙ bit_or_disjoint shift g result (g * 2 ^ shift) refl hr
      ∙ omega arith)

last_of_varint :
    (n result g shift : ℕ) (rest : List ℕ)
    → g < 128
    → result < 2 ^ shift
    → IsU64 (g * 2 ^ shift)
    → read_varint_loop (suc n) (g ∷ rest) result shift ≡ (some (result + g * 2 ^ shift), rest)
unfolding read_varint_loop
last_of_varint n result g shift rest hg hr fits = ground (
  arith,
  mask_top_bit g (omega arith),
  add_group_lem result g g shift (omega arith) (omega arith) hr fits,
)

more_of_varint :
    (n result g shift : ℕ) (rest : List ℕ)
    → g < 128
    → result < 2 ^ shift
    → IsU64 (g * 2 ^ shift)
    → read_varint_loop (suc n) ((g + 128) ∷ rest) result shift
      ≡ read_varint_loop n rest (result + g * 2 ^ shift) (shift + 7)
unfolding read_varint_loop
more_of_varint n result g shift rest hg hr fits = ground (
  arith,
  mask_top_bit (g + 128) (omega arith),
  add_group_lem result (g + 128) g shift (omega arith) (omega arith) hr fits,
)

shift_by_seven : (s : ℕ) → 2 ^ (s + 7) ≡ 128 * 2 ^ s
shift_by_seven s = simp towards_suc (omega arith)

lowest_seven : (v s : ℕ) → v * 2 ^ s ≡ v % 128 * 2 ^ s + v / 128 * 2 ^ (s + 7)
lowest_seven v s = omega (
  arith,
  ap (λ (n : ℕ). n * 2 ^ s) (div-add-mod v 128),
  ap (λ (n : ℕ). v / 128 * n) (shift_by_seven s),
)

seven_fit : (r g s : ℕ) → r < 2 ^ s → g < 128 → r + g * 2 ^ s < 2 ^ (s + 7)
seven_fit r g s hr hg =
    let scaled : g * 2 ^ s ≤ 127 * 2 ^ s = mul-le-mul_right (2 ^ s) (omega arith) in
    omega (arith, shift_by_seven s)

read_varint_loop-sevens :
    (more v result shift : ℕ) (rest : List ℕ)
    → v < 128 ^ suc more
    → result < 2 ^ shift
    → IsU64 (v * 2 ^ shift)
    → read_varint_loop (suc more) (sevens more v ++ rest) result shift
      ≡ (some (result + v * 2 ^ shift), rest)
unfolding sevens
read_varint_loop-sevens zero v result shift rest hv hr fits =
    last_of_varint zero result v shift rest hv hr fits
read_varint_loop-sevens (suc more) v result shift rest hv hr fits = ground (
  arith,
  lowest_seven v shift,
  last_of_varint (suc more) result v shift rest,
  more_of_varint (suc more) result (v % 128) shift (sevens more (v / 128) ++ rest),
  seven_fit result (v % 128) shift hr,
  read_varint_loop-sevens more (v / 128) (result + v % 128 * 2 ^ shift) (shift + 7) rest
      (omega arith),
)

pub read_varint-sevens :
    (v : ℕ) (rest : List ℕ) → IsU64 v → read_varint (sevens 9 v ++ rest) ≡ (some v, rest)
unfolding read_varint
read_varint-sevens v rest h = ground (arith, read_varint_loop-sevens 9 v 0 0 rest)

-- `ReadVarint` reads the uint64 that `writeVarint` wrote at the start of the input, and stops behind it.
pub read_varint-write_varint :
    (v : ℕ) (rest : List ℕ) → IsU64 v → read_varint (write_varint [] v ++ rest) ≡ (some v, rest)
read_varint-write_varint v rest h = rw (write_varint-sevens [] v h) (read_varint-sevens v rest h)
