-- ===== src/Danmaku/GiftPb/Rounds.antt =====
-- The rounds of a message: each takes a byte, so that there are no more than bytes, on any input.
use bilirec.Prelude.{
  ℕ, zero, suc, ◌+◌, ◌≤◌, ◌<◌, ◌≡◌, refl, sym, ap, ◌∙◌, subst, inl, inr, Bool, true, false, Option,
  none, some, List, [], ◌∷◌, if◌then◌else◌, if_cases, length, ltb, ◌==◌, arith, length-drop,
  Option-cases, bit_and,
}
use bilirec.Wire.Reader.{
  add_group, read_varint_loop, read_varint, tag_of, try_read_tag, bool_of, read_bool, take_bytes,
  read_bytes, is_ok, skip_bytes, skip_field,
}
use bilirec.Danmaku.GiftPb.{
  SendGiftV2Item, SendGiftBroadcast, empty_item, empty_broadcast, store_read, skipped,
  apply_item_field, message_loop, parse_item, add_gift, apply_gift, apply_broadcast_field,
  parse_broadcast,
}

-- What is left after a read is no longer, and shorter where the read gave a number.
IsShorter : Option ℕ × List ℕ → List ℕ → Type 0
IsShorter (none, r') r = length r' ≤ length r
IsShorter (some v, r') r = length r' < length r

IsShorter-cons : (b : ℕ) (r : List ℕ) (p : Option ℕ × List ℕ) → IsShorter p r → IsShorter p (b ∷ r)
unfolding IsShorter
IsShorter-cons b r (none, r') h = omega arith
IsShorter-cons b r (some v, r') h = omega arith

read_varint_loop-IsShorter :
    (n : ℕ) (r : List ℕ) (result shift : ℕ) → IsShorter (read_varint_loop n r result shift) r
unfolding read_varint_loop IsShorter
read_varint_loop-IsShorter zero r result shift = omega arith
read_varint_loop-IsShorter (suc n) [] result shift = omega arith
read_varint_loop-IsShorter (suc n) (b ∷ r) result shift =
    if_cases (λ (p : Option ℕ × List ℕ). IsShorter p (b ∷ r)) (bit_and b 0x80 == 0)
      (λ last. omega arith)
      (λ more.
        IsShorter-cons b r _
          (read_varint_loop-IsShorter n r (add_group result b shift) (shift + 7)))

left_le : (p : Option ℕ × List ℕ) (r : List ℕ) → IsShorter p r → length p.1 ≤ length r
unfolding IsShorter
left_le (none, r') r h = h
left_le (some v, r') r h = omega arith

length-read_varint : (r : List ℕ) → length (read_varint r).1 ≤ length r
unfolding read_varint
length-read_varint r = left_le _ r (read_varint_loop-IsShorter 10 r 0 0)

length-take_bytes : (p : Option ℕ × List ℕ) → length (take_bytes p).1 ≤ length p.1
unfolding take_bytes
length-take_bytes (none, r) = omega arith
length-take_bytes (some n, r) =
    if_cases (λ (q : Option (List ℕ) × List ℕ). length q.1 ≤ length r) (ltb (length r) n)
      (λ e. omega arith) (λ e. omega (arith, length-drop n r))

length-read_bytes : (r : List ℕ) → length (read_bytes r).1 ≤ length r
unfolding read_bytes
length-read_bytes r = omega (arith, length-take_bytes (read_varint r), length-read_varint r)

length-bool_of : (p : Option ℕ × List ℕ) → length (bool_of p).1 ≤ length p.1
unfolding bool_of
length-bool_of (none, r) = omega arith
length-bool_of (some v, r) = omega arith

length-read_bool : (r : List ℕ) → length (read_bool r).1 ≤ length r
unfolding read_bool
length-read_bool r = omega (arith, length-bool_of (read_varint r), length-read_varint r)

length-is_ok {ℓ} : {A : Type ℓ} (p : Option A × List ℕ) → length (is_ok p).1 ≤ length p.1
unfolding is_ok
length-is_ok (none, r) = omega arith
length-is_ok (some a, r) = omega arith

length-skip_bytes : (n : ℕ) (r : List ℕ) → length (skip_bytes n r).1 ≤ length r
unfolding skip_bytes
length-skip_bytes n r =
    if_cases (λ (q : Bool × List ℕ). length q.1 ≤ length r) (ltb (length r) n) (λ e. omega arith)
      (λ e. omega (arith, length-drop n r))

length-skip_field : (t : ℕ) (r : List ℕ) → length (skip_field t r).1 ≤ length r
unfolding skip_field
length-skip_field t r =
    let short : Bool × List ℕ → Type 0 = λ q. length q.1 ≤ length r in
    if_cases short (t == 0) (λ e. omega (arith, length-is_ok (read_varint r), length-read_varint r))
      (λ e.
        if_cases short (t == 1) (λ e. length-skip_bytes 8 r)
          (λ e.
            if_cases short (t == 2)
              (λ e. omega (arith, length-is_ok (read_bytes r), length-read_bytes r))
              (λ e. if_cases short (t == 5) (λ e. length-skip_bytes 4 r) (λ e. omega arith))))

-- What a handler leaves is no longer.
Leaves : {A : Type 0} → Option (A × List ℕ) → List ℕ → Type 0
Leaves none r = Unit
Leaves (some (a, r')) r = length r' ≤ length r

module _ {A : Type 0} (r : List ℕ) where
  Leaves-if :
      (b : Bool) (x y : Option (A × List ℕ))
      → Leaves x r
      → Leaves y r
      → Leaves (if b then x else y) r
  Leaves-if b x y hx hy = if_cases (λ (o : Option (A × List ℕ)). Leaves o r) b (λ e. hx) (λ e. hy)

  Leaves-store :
      {B : Type 0} (p : Option B × List ℕ) (store : B → A)
      → length p.1 ≤ length r
      → Leaves (store_read p store) r
  unfolding store_read Leaves
  Leaves-store (none, r') store h = tt
  Leaves-store (some v, r') store h = h

  Leaves-skipped : (p : Bool × List ℕ) (out : A) → length p.1 ≤ length r → Leaves (skipped p out) r
  unfolding skipped Leaves
  Leaves-skipped (false, r') out h = tt
  Leaves-skipped (true, r') out h = h

Leaves-apply_item_field :
    (out : SendGiftV2Item) (r : List ℕ) (n t : ℕ) → Leaves (apply_item_field out r n t) r
unfolding apply_item_field
Leaves-apply_item_field out r n t =
    Leaves-if r (n == 1) _ _ (Leaves-store r (read_varint r) _ (length-read_varint r)) (
      Leaves-if r (n == 2) _ _ (Leaves-store r (read_bytes r) _ (length-read_bytes r)) (
        Leaves-if r (n == 3) _ _ (Leaves-store r (read_varint r) _ (length-read_varint r)) (
          Leaves-if r (n == 4) _ _ (Leaves-store r (read_varint r) _ (length-read_varint r)) (
            Leaves-if r (n == 5) _ _ (Leaves-store r (read_varint r) _ (length-read_varint r)) (
              Leaves-if r (n == 7) _ _ (Leaves-store r (read_varint r) _ (length-read_varint r)) (
                Leaves-if r (n == 8) _ _ (Leaves-store r (read_bytes r) _ (length-read_bytes r)) (
                  Leaves-if r (n == 9) _ _ (Leaves-store r (read_bytes r) _ (length-read_bytes r)) (
                    Leaves-if r (n == 10) _ _
                      (Leaves-store r (read_varint r) _ (length-read_varint r))
                      (Leaves-if r (n == 18) _ _
                        (Leaves-store r (read_bytes r) _ (length-read_bytes r))
                        (Leaves-skipped r (skip_field t r) out (length-skip_field t r)))))))))))

Leaves-add_gift :
    (out : SendGiftBroadcast) (o : Option SendGiftV2Item) (r' r : List ℕ)
    → length r' ≤ length r
    → Leaves (add_gift out o r') r
unfolding add_gift Leaves
Leaves-add_gift out none r' r h = tt
Leaves-add_gift out (some item) r' r h = h

Leaves-apply_gift :
    (out : SendGiftBroadcast) (r : List ℕ) (p : Option (List ℕ) × List ℕ)
    → length p.1 ≤ length r
    → Leaves (apply_gift out p) r
unfolding apply_gift Leaves
Leaves-apply_gift out r (none, r') h = tt
Leaves-apply_gift out r (some msg, r') h = Leaves-add_gift out (parse_item msg) r' r h

Leaves-apply_broadcast_field :
    (out : SendGiftBroadcast) (r : List ℕ) (n t : ℕ) → Leaves (apply_broadcast_field out r n t) r
unfolding apply_broadcast_field
Leaves-apply_broadcast_field out r n t =
    Leaves-if r (n == 1) _ _ (Leaves-store r (read_varint r) _ (length-read_varint r)) (
      Leaves-if r (n == 2) _ _ (Leaves-store r (read_bytes r) _ (length-read_bytes r)) (
        Leaves-if r (n == 3) _ _ (Leaves-store r (read_bytes r) _ (length-read_bytes r)) (
          Leaves-if r (n == 4) _ _ (Leaves-store r (read_bytes r) _ (length-read_bytes r)) (
            Leaves-if r (n == 5) _ _ (Leaves-store r (read_varint r) _ (length-read_varint r)) (
              Leaves-if r (n == 10) _ _
                (Leaves-apply_gift out r (read_bytes r) (length-read_bytes r))
                (Leaves-if r (n == 11) _ _ (Leaves-store r (read_bool r) _ (length-read_bool r))
                  (Leaves-skipped r (skip_field t r) out (length-skip_field t r))))))))

-- What is behind a tag.
IsBehind : Option (ℕ × ℕ) × List ℕ → List ℕ → Type 0
IsBehind (none, r') r = Unit
IsBehind (some t, r') r = length r' < length r

tag_of-IsBehind : (p : Option ℕ × List ℕ) (r : List ℕ) → IsShorter p r → IsBehind (tag_of p) r
unfolding tag_of IsShorter IsBehind
tag_of-IsBehind (none, r') r h = tt
tag_of-IsBehind (some v, r') r h = h

try_read_tag-IsBehind : (r : List ℕ) → IsBehind (try_read_tag r) r
unfolding try_read_tag read_varint IsBehind
try_read_tag-IsBehind [] = tt
try_read_tag-IsBehind (b ∷ r) =
    tag_of-IsBehind _ (b ∷ r) (read_varint_loop-IsShorter 10 (b ∷ r) 0 0)

module _ {A : Type 0} (apply_field : A → List ℕ → ℕ → ℕ → Option (A × List ℕ))
    (leaves : (out : A) (r : List ℕ) (n t : ℕ) → Leaves (apply_field out r n t) r) where
  loop_fails :
      (fuel n t : ℕ) (out : A) (r : List ℕ)
      → apply_field out r n t ≡ none
      → message_loop apply_field (suc fuel) out (some (n, t), r) ≡ none
  unfolding message_loop
  loop_fails fuel n t out r e = rw (message_loop, e) refl

  loop_goes_on :
      (fuel n t : ℕ) (out next : A) (r rest : List ℕ)
      → apply_field out r n t ≡ some (next, rest)
      → message_loop apply_field (suc fuel) out (some (n, t), r)
        ≡ message_loop apply_field fuel next (try_read_tag rest)
  unfolding message_loop
  loop_goes_on fuel n t out next r rest e = rw (message_loop, e) refl

  -- More fuel than bytes changes nothing.
  message_loop-more :
      (fuel more : ℕ) (out : A) (p : Option (ℕ × ℕ) × List ℕ) (r : List ℕ)
      → IsBehind p r
      → length r ≤ fuel
      → message_loop apply_field (fuel + more) out p ≡ message_loop apply_field fuel out p
  unfolding message_loop IsBehind
  message_loop-more fuel more out (none, r') r h enough = refl
  message_loop-more zero more out (some (n, t), r') r h enough = absurd (omega arith)
  message_loop-more (suc fuel) more out (some (n, t), r') r h enough =
      let next_fuel : suc fuel + more ≡ suc (fuel + more) = omega arith in
      ap (λ (f : ℕ). message_loop apply_field f out (some (n, t), r')) next_fuel
      ∙ elim (Option-cases (apply_field out r' n t)) [
        | inl e ↦ loop_fails (fuel + more) n t out r' e ∙ sym (loop_fails fuel n t out r' e)
        | inr ((next, rest), e) ↦
            let left : Leaves (some (next, rest)) r' =
              subst (λ (o : Option (A × List ℕ)). Leaves o r') e (leaves out r' n t) in
            loop_goes_on (fuel + more) n t out next r' rest e
            ∙ message_loop-more fuel more next (try_read_tag rest) rest (try_read_tag-IsBehind rest)
                (unfold Leaves in omega (arith, left, h, enough))
            ∙ sym (loop_goes_on fuel n t out next r' rest e)
      ]

-- The parsers of an item and of a broadcast have rounds enough on any bytes: with more of them they
-- give the same.
pub parse_broadcast-more :
    (more : ℕ) (bytes : List ℕ)
    → (message_loop apply_item_field (length bytes + more) empty_item (try_read_tag bytes)
        ≡ parse_item bytes)
      × (message_loop apply_broadcast_field
            (length bytes + more)
            empty_broadcast
            (try_read_tag bytes)
          ≡ parse_broadcast bytes)
unfolding parse_item parse_broadcast
parse_broadcast-more more bytes = (
  message_loop-more apply_item_field Leaves-apply_item_field (length bytes) more empty_item _ bytes
      (try_read_tag-IsBehind bytes) (omega arith),
  message_loop-more apply_broadcast_field Leaves-apply_broadcast_field (length bytes) more
      empty_broadcast _ bytes (try_read_tag-IsBehind bytes) (omega arith),
)
