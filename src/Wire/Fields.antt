-- ===== src/Wire/Fields.antt =====
-- Fields: a tag and the value behind it.
use bilirec.Prelude.{
  ℕ, zero, suc, ◌+◌, ◌*◌, ◌/◌, ◌%◌, ◌<◌, bit_or, Bool, true, false, some, List, [], ◌∷◌, ◌++◌,
  if◌then◌else◌, length, ◌≡◌, refl, ap, sym, ◌∙◌, arith, append_assoc, take-append_self,
  drop-append_self, length-append,
}
use bilirec.Prelude.Bits.{mask_low_3, bit_or_disjoint}
use bilirec.Wire.Reader.{
  read_varint_loop, read_varint, try_read_tag, tag_of, read_bytes, take_bytes, is_ok, skip_bytes,
  skip_field,
}
use bilirec.Wire.Writer.{
  write_tag, write_varint_field, write_bool_field, write_bytes_field, write_fixed64_field,
  write_fixed32_field, little_endian,
}
use bilirec.Wire.Varints.{IsU64, sevens, write_varint-sevens, read_varint-sevens}

-- A field number that a tag of 64 bits can hold.
abbrev pub IsFieldNum : ℕ → Type 0
IsFieldNum n = n < 0x2000_0000_0000_0000

-- The bytes of a tag and of a number.
abbrev pub varint_bytes : ℕ → List ℕ
varint_bytes v = sevens 9 v

abbrev pub tag_bytes : ℕ → ℕ → List ℕ
tag_bytes field_num wire_type = varint_bytes (field_num * 8 + wire_type)

pub write_tag_lem :
    (buf : List ℕ) (n t : ℕ) → IsFieldNum n → t < 8 → write_tag buf n t ≡ buf ++ tag_bytes n t
unfolding write_tag
write_tag_lem buf n t hn ht =
    let joined : bit_or (n * 8 % 0x1_0000_0000_0000_0000) t ≡ n * 8 + t =
      bit_or_disjoint 3 n t _ (omega arith) ht ∙ omega arith in
    rw joined (write_varint-sevens buf (n * 8 + t) (omega arith))

try_read_tag_lem : (r : List ℕ) → try_read_tag r ≡ tag_of (read_varint r)
unfolding try_read_tag tag_of read_varint read_varint_loop
try_read_tag_lem [] = refl
try_read_tag_lem (b ∷ r) = refl

pub try_read_tag-tag_bytes :
    (n t : ℕ) (rest : List ℕ)
    → IsFieldNum n
    → t < 8
    → try_read_tag (tag_bytes n t ++ rest) ≡ (some (n, t), rest)
unfolding tag_of
try_read_tag-tag_bytes n t rest hn ht =
    try_read_tag_lem _
    ∙ rw (read_varint-sevens (n * 8 + t) rest (omega arith), mask_low_3 (n * 8 + t)) (ground arith)

pub write_varint_field_lem :
    (buf : List ℕ) (n v : ℕ)
    → IsFieldNum n
    → IsU64 v
    → write_varint_field buf n v ≡ buf ++ (tag_bytes n 0 ++ varint_bytes v)
unfolding write_varint_field
write_varint_field_lem buf n v hn hv =
    write_varint-sevens _ v hv
    ∙ rw (write_tag_lem buf n 0 hn (omega arith)) (append_assoc buf (tag_bytes n 0) _)

-- A field of the wire format that the writer can write, and what a field carries.
pub data Field : Type 0 where
  varint_field : ℕ → Field
  bool_field : Bool → Field
  bytes_field : List ℕ → Field
  fixed64_field : ℕ → Field
  fixed32_field : ℕ → Field

abbrev pub wire_type : Field → ℕ
wire_type (varint_field v) = 0
wire_type (bool_field v) = 0
wire_type (bytes_field b) = 2
wire_type (fixed64_field v) = 1
wire_type (fixed32_field v) = 5

abbrev pub IsField : Field → Type 0
IsField (varint_field v) = IsU64 v
IsField (bool_field v) = Unit
IsField (bytes_field b) = IsU64 (length b)
IsField (fixed64_field v) = IsU64 v
IsField (fixed32_field v) = v < 0x1_0000_0000

unfoldable pub write_field : List ℕ → ℕ → Field → List ℕ
write_field buf n (varint_field v) = write_varint_field buf n v
write_field buf n (bool_field v) = write_bool_field buf n v
write_field buf n (bytes_field b) = write_bytes_field buf n b
write_field buf n (fixed64_field v) = write_fixed64_field buf n v
write_field buf n (fixed32_field v) = write_fixed32_field buf n v

abbrev pub payload : Field → List ℕ
payload (varint_field v) = varint_bytes v
payload (bool_field v) = varint_bytes (if v then 1 else 0)
payload (bytes_field b) = varint_bytes (length b) ++ b
payload (fixed64_field v) = little_endian 8 v
payload (fixed32_field v) = little_endian 4 v

bit_IsU64 : (v : Bool) → IsU64 (if v then 1 else 0)
bit_IsU64 true = omega arith
bit_IsU64 false = omega arith

pub wire_type_lt : (f : Field) → wire_type f < 8
wire_type_lt (varint_field v) = omega arith
wire_type_lt (bool_field v) = omega arith
wire_type_lt (bytes_field b) = omega arith
wire_type_lt (fixed64_field v) = omega arith
wire_type_lt (fixed32_field v) = omega arith

pub write_field_lem :
    (buf : List ℕ) (n : ℕ) (f : Field)
    → IsFieldNum n
    → IsField f
    → write_field buf n f ≡ buf ++ (tag_bytes n (wire_type f) ++ payload f)
unfolding write_field write_bool_field write_bytes_field write_fixed64_field write_fixed32_field
write_field_lem buf n (varint_field v) hn hf = write_varint_field_lem buf n v hn hf
write_field_lem buf n (bool_field true) hn hf = write_varint_field_lem buf n 1 hn (omega arith)
write_field_lem buf n (bool_field false) hn hf = write_varint_field_lem buf n 0 hn (omega arith)
write_field_lem buf n (bytes_field b) hn hf =
    ap (λ (front : List ℕ). front ++ b)
      (write_varint-sevens _ (length b) hf
        ∙ rw (write_tag_lem buf n 2 hn (omega arith)) (append_assoc buf (tag_bytes n 2) _))
    ∙ append_assoc buf _ b
    ∙ ap (λ (back : List ℕ). buf ++ back) (append_assoc (tag_bytes n 2) _ b)
write_field_lem buf n (fixed64_field v) hn hf =
    rw (write_tag_lem buf n 1 hn (omega arith)) (append_assoc buf (tag_bytes n 1) _)
write_field_lem buf n (fixed32_field v) hn hf =
    rw (write_tag_lem buf n 5 hn (omega arith)) (append_assoc buf (tag_bytes n 5) _)

length-little_endian : (n v : ℕ) → length (little_endian n v) ≡ n
unfolding little_endian
length-little_endian zero v = refl
length-little_endian (suc n) v = ap suc (length-little_endian n (v / 256))

skip_bytes_lem : (b rest : List ℕ) → skip_bytes (length b) (b ++ rest) ≡ (true, rest)
unfolding skip_bytes
skip_bytes_lem b rest = ground (arith, length-append b rest, drop-append_self b rest)

skip_fixed : (n v : ℕ) (rest : List ℕ) → skip_bytes n (little_endian n v ++ rest) ≡ (true, rest)
skip_fixed n v rest =
    ap (λ (size : ℕ). skip_bytes size (little_endian n v ++ rest)) (sym (length-little_endian n v))
    ∙ skip_bytes_lem (little_endian n v) rest

pub read_bytes_lem :
    (b rest : List ℕ)
    → IsU64 (length b)
    → read_bytes ((varint_bytes (length b) ++ b) ++ rest) ≡ (some b, rest)
unfolding read_bytes take_bytes
read_bytes_lem b rest h =
    rw (append_assoc (varint_bytes (length b)) b rest, read_varint-sevens (length b) (b ++ rest) h)
      (ground (arith, length-append b rest, drop-append_self b rest, take-append_self b rest))

pub skip_field_lem :
    (f : Field) (rest : List ℕ)
    → IsField f
    → skip_field (wire_type f) (payload f ++ rest) ≡ (true, rest)
unfolding skip_field is_ok
skip_field_lem (varint_field v) rest h = rw (read_varint-sevens v rest h) refl
skip_field_lem (bool_field v) rest h = rw (read_varint-sevens _ rest (bit_IsU64 v)) refl
skip_field_lem (bytes_field b) rest h = rw (read_bytes_lem b rest h) refl
skip_field_lem (fixed64_field v) rest h = skip_fixed 8 v rest
skip_field_lem (fixed32_field v) rest h = skip_fixed 4 v rest

pub field_lem :
    (n : ℕ) (f : Field) (rest : List ℕ)
    → IsFieldNum n
    → IsField f
    → try_read_tag (write_field [] n f ++ rest) ≡ (some (n, wire_type f), payload f ++ rest)
field_lem n f rest hn hf =
    rw (write_field_lem [] n f hn hf, append_assoc (tag_bytes n (wire_type f)) (payload f) rest)
      (try_read_tag-tag_bytes n (wire_type f) _ hn (wire_type_lt f))

-- After a field that was written, whatever its kind, the tag that is read back is its number and its
-- wire type, and SkipField with that wire type passes over exactly the rest of the field.
pub skip_field-write_field :
    (n : ℕ) (f : Field) (rest : List ℕ)
    → IsFieldNum n
    → IsField f
    → (r : List ℕ) × (try_read_tag (write_field [] n f ++ rest) ≡ (some (n, wire_type f), r))
      × (skip_field (wire_type f) r ≡ (true, rest))
skip_field-write_field n f rest hn hf =
    (payload f ++ rest, field_lem n f rest hn hf, skip_field_lem f rest hf)
