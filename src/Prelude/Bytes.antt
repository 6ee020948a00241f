-- ===== src/Prelude/Bytes.antt =====
-- Byte strings: equality as in `bytes.Equal`, and big-endian integers of three and four bytes,
-- read with shifts and `|` as the source writes them.
use Prim.Native.Nat.{ℕ, ◌+◌, ◌*◌, ◌/◌, ◌%◌, ◌^◌, bit_or}
use mathlib.Core.Path.{◌≡◌, refl, ap, ◌∙◌}
use mathlib.Core.Logic.{◌≢◌}
use mathlib.Core.Bool.{Bool, true, false, ◌&&◌}
use mathlib.Core.List.{List, [], ◌∷◌}
use native.Mathlib.Omega.{arith}
use bilirec.Prelude.Tests.{◌==◌}
use bilirec.Prelude.Words.{IsByte}
use bilirec.Prelude.Bits.{bit_or_disjoint}

-- `bytes.Equal`
abbrev pub bytes_equal : List ℕ → List ℕ → Bool
bytes_equal [] [] = true
bytes_equal [] (y ∷ ys) = false
bytes_equal (x ∷ xs) [] = false
bytes_equal (x ∷ xs) (y ∷ ys) = x == y && bytes_equal xs ys

pub bytes_equal→eq : (xs ys : List ℕ) → bytes_equal xs ys ≡ true → xs ≡ ys
bytes_equal→eq [] [] h = refl
bytes_equal→eq [] (y ∷ ys) h = cc
bytes_equal→eq (x ∷ xs) [] h = cc
bytes_equal→eq (x ∷ xs) (y ∷ ys) h = ground (arith, bytes_equal→eq xs ys)

pub bytes_equal_refl : (xs : List ℕ) → bytes_equal xs xs ≡ true
bytes_equal_refl [] = refl
bytes_equal_refl (x ∷ xs) = ground (arith, bytes_equal_refl xs)

pub bytes_equal→ne : (xs ys : List ℕ) → bytes_equal xs ys ≡ false → xs ≢ ys
bytes_equal→ne xs ys h e = cc (ap (bytes_equal xs) e, bytes_equal_refl xs)

-- `byte(v >> 8 * k)`
abbrev pub byte_at : ℕ → ℕ → ℕ
byte_at v k = v / 256 ^ k % 256

-- `uint32(a)<<16 | uint32(b)<<8 | uint32(c)`
unfoldable pub uint24 : ℕ → ℕ → ℕ → ℕ
uint24 a b c = bit_or (bit_or (a * 65536) (b * 256)) c

pub uint24_lem : (a b c : ℕ) → IsByte b → IsByte c → uint24 a b c ≡ a * 65536 + b * 256 + c
unfolding uint24
uint24_lem a b c hb hc =
    ap (λ (t : ℕ). bit_or t c)
      (bit_or_disjoint 16 a (b * 256) (a * 65536) (omega arith) (omega arith))
    ∙ bit_or_disjoint 8 (a * 256 + b) c (a * 65536 + b * 256) (omega arith) (omega arith)

-- `int32(d)<<24 | int32(a)<<16 | int32(b)<<8 | int32(c)` as a bit pattern, also `binary.BigEndian.Uint32`.
unfoldable pub uint32_be : ℕ → ℕ → ℕ → ℕ → ℕ
uint32_be d a b c = bit_or (bit_or (bit_or (d * 16777216) (a * 65536)) (b * 256)) c

pub uint32_be_lem :
    (d a b c : ℕ)
    → IsByte a
    → IsByte b
    → IsByte c
    → uint32_be d a b c ≡ d * 16777216 + a * 65536 + b * 256 + c
unfolding uint32_be
uint32_be_lem d a b c ha hb hc =
    ap (λ (t : ℕ). bit_or (bit_or t (b * 256)) c)
      (bit_or_disjoint 24 d (a * 65536) (d * 16777216) (omega arith) (omega arith))
    ∙ ap (λ (t : ℕ). bit_or t c)
        (bit_or_disjoint 16 (d * 256 + a) (b * 256) (d * 16777216 + a * 65536) (omega arith)
          (omega arith))
    ∙ bit_or_disjoint 8 (d * 65536 + a * 256 + b) c (d * 16777216 + a * 65536 + b * 256)
        (omega arith) (omega arith)
