-- ===== src/Danmaku/GiftPb/Messages.antt =====
-- Messages of numbered fields, and the loop that reads them.
use mathlib.Core.List.{foldl}
use bilirec.Prelude.{
  ℕ, zero, suc, ◌+◌, ◌*◌, ◌<◌, ◌≤◌, Option, some, List, [], ◌∷◌, ◌++◌, length, ◌≡◌, refl, ap, sym,
  ◌∙◌, arith, All, append_assoc, append-nil, length-append,
}
use bilirec.Wire.Reader.{try_read_tag}
use bilirec.Wire.Varints.{sevens}
use bilirec.Wire.Fields.{
  Field, wire_type, IsField, IsFieldNum, payload, tag_bytes, write_field, write_field_lem,
  wire_type_lt, try_read_tag-tag_bytes,
}
use bilirec.Danmaku.GiftPb.{message_loop}

-- A message as the list of its parts; a part stands for a numbered field.
abbrev pub IsNumbered : ℕ × Field → Type 0
IsNumbered p = IsFieldNum p.0 × IsField p.1

length-sevens_pos : (more v : ℕ) → 0 < length (sevens more v)
unfolding sevens
length-sevens_pos zero v = omega arith
length-sevens_pos (suc more) v = ground arith

abbrev field_bytes : ℕ × Field → List ℕ
field_bytes (n, f) = tag_bytes n (wire_type f) ++ payload f

length-field_bytes_pos : (p : ℕ × Field) → 0 < length (field_bytes p)
length-field_bytes_pos (n, f) =
    rw length-append (omega (arith, length-sevens_pos 9 (n * 8 + wire_type f)))

module _ {P : Type 0} (field_of : P → ℕ × Field) where
  unfoldable pub write_message : List ℕ → List P → List ℕ
  write_message buf [] = buf
  write_message buf (p ∷ parts) =
      write_message (write_field buf (field_of p).0 (field_of p).1) parts

  abbrev message_bytes : List P → List ℕ
  message_bytes [] = []
  message_bytes (p ∷ parts) = field_bytes (field_of p) ++ message_bytes parts

  write_message_lem :
      (buf : List ℕ) (parts : List P)
      → All (λ p. IsNumbered (field_of p)) parts
      → write_message buf parts ≡ buf ++ message_bytes parts
  unfolding write_message
  write_message_lem buf [] h = sym (append-nil buf)
  write_message_lem buf (p ∷ parts) ((hn, hf), h) =
      write_message_lem (write_field buf (field_of p).0 (field_of p).1) parts h
      ∙ rw (write_field_lem buf (field_of p).0 (field_of p).1 hn hf)
          (append_assoc buf (field_bytes (field_of p)) (message_bytes parts))

  shorter :
      (p : P) (parts : List P) → length (message_bytes parts) < length (message_bytes (p ∷ parts))
  shorter p parts = rw length-append (omega (arith, length-field_bytes_pos (field_of p)))

  -- The loop over a message whose parts the handler applies as `store` does.
  module _ {ℓ} {A : Type ℓ} (apply_field : A → List ℕ → ℕ → ℕ → Option (A × List ℕ))
      (store : A → P → A) (Known : P → Type 0)
      (applies : (out : A) (p : P) (rest : List ℕ)
        → IsField (field_of p).1
        → Known p
        → apply_field out (payload (field_of p).1 ++ rest) (field_of p).0 (wire_type (field_of p).1)
          ≡ some (store out p, rest)) where
    message_loop_lem :
        (fuel : ℕ) (out : A) (parts : List P)
        → length (message_bytes parts) ≤ fuel
        → All (λ p. IsNumbered (field_of p)) parts
        → All Known parts
        → message_loop apply_field fuel out (try_read_tag (message_bytes parts))
          ≡ some (foldl store out parts)
    unfolding message_loop try_read_tag
    message_loop_lem fuel out [] h hn hk = refl
    message_loop_lem zero out (p ∷ parts) h hn hk = absurd (omega (arith, shorter p parts))
    message_loop_lem (suc fuel) out (p ∷ parts) h ((hn, hf), hs) (k, ks) =
        ap (λ (bytes : List ℕ). message_loop apply_field (suc fuel) out (try_read_tag bytes))
          (append_assoc (tag_bytes (field_of p).0 (wire_type (field_of p).1))
            (payload (field_of p).1) (message_bytes parts))
        ∙ ap (message_loop apply_field (suc fuel) out) (
            try_read_tag-tag_bytes (field_of p).0 (wire_type (field_of p).1) _ hn
              (wire_type_lt (field_of p).1))
        ∙ rw (applies out p (message_bytes parts) hf k, message_loop)
            (message_loop_lem fuel (store out p) parts (omega (arith, shorter p parts)) hs ks)

    pub message_loop-write_message :
        (out : A) (parts : List P)
        → All (λ p. IsNumbered (field_of p)) parts
        → All Known parts
        → message_loop apply_field
            (length (write_message [] parts))
            out
            (try_read_tag (write_message [] parts))
          ≡ some (foldl store out parts)
    message_loop-write_message out parts h k =
        rw (write_message_lem [] parts h) (message_loop_lem _ out parts (omega arith) h k)
