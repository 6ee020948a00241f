-- ===== src/Flv/Dedup/Detection.antt =====
-- Which tags count as duplicates.
use bilirec.Prelude.{
  ℕ, ◌≡◌, ◌⊎◌, true, false, some, inl, inr, ◌/◌, lookup, lookup-insert, arith, Option-cases,
}
use bilirec.Prelude.Words.{lt_i32}
use bilirec.Flv.Tag.{Tag}
use bilirec.Flv.Dedup.{
  TagSignature, DedupCache, compute_signature, add, add_new, is_duplicate, signature_of,
  evict_oldest, at_least_one, time_distance,
}

lookup-add_new :
    (hash : ℕ) (sig : TagSignature) (c : DedupCache)
    → lookup hash (add_new hash sig c).signatures ≡ some sig
unfolding add_new
lookup-add_new hash sig c = ground (arith, lookup-insert hash hash sig c.signatures)

lookup-add :
    (hash : ℕ) (sig : TagSignature) (c : DedupCache)
    → lookup hash (add hash sig c).signatures ≡ some sig
unfolding add
lookup-add hash sig c = elim (Option-cases (lookup hash c.signatures)) [
  | inl e ↦
      rw (e, add)
        (ground (
          arith,
          lookup-add_new hash sig c,
          lookup-add_new hash sig (evict_oldest (at_least_one (c.max_size / 5)) c),
        ))
  | inr (old, e) ↦ rw (e, add) (ground (arith, lookup-insert hash hash sig c.signatures))
]

add_settings :
    (hash : ℕ) (sig : TagSignature) (c : DedupCache)
    → ((add hash sig c).window_ms ≡ c.window_ms) × ((add hash sig c).max_size ≡ c.max_size)
unfolding add add_new evict_oldest
add_settings hash sig c = ground arith

pub is_duplicate_settings :
    (c : DedupCache) (tag : Tag)
    → ((is_duplicate c tag).1.window_ms ≡ c.window_ms)
      × ((is_duplicate c tag).1.max_size ≡ c.max_size)
unfolding is_duplicate
is_duplicate_settings c tag =
    ground (arith, add_settings (compute_signature tag) (signature_of tag) c)

-- The second of two equal tags in a row is a duplicate, if the window is not negative.
is_duplicate-is_duplicate :
    (c : DedupCache) (tag : Tag)
    → lt_i32 c.window_ms 0 ≡ false
    → (is_duplicate (is_duplicate c tag).1 tag).0 ≡ true
unfolding is_duplicate
is_duplicate-is_duplicate c tag h = ground (
  arith,
  lookup-add (compute_signature tag) (signature_of tag) c,
  add_settings (compute_signature tag) (signature_of tag) c,
)

-- An entry that makes the tag a duplicate.
abbrev pub Entry : DedupCache → Tag → TagSignature → Type 0
Entry c tag old =
    (lookup (compute_signature tag) c.signatures ≡ some old)
    × (old.type ≡ tag.type)
    × (old.data_size ≡ tag.data_size)
    × (lt_i32 c.window_ms (time_distance tag.timestamp old.timestamp) ≡ false)

no_Entry :
    (c : DedupCache) (tag : Tag) (old : TagSignature)
    → (is_duplicate c tag).0 ≡ false
    → Entry c tag old
    → ⊥
unfolding is_duplicate
no_Entry c tag old h (e, t, d, w) = ground arith

is_duplicate_cases :
    (c : DedupCache) (tag : Tag)
    → (((is_duplicate c tag).0 ≡ false)
        × (lookup (compute_signature tag) (is_duplicate c tag).1.signatures
            ≡ some (signature_of tag)))
      ⊎ (((is_duplicate c tag).0 ≡ true)
          × ((is_duplicate c tag).1 ≡ c)
          × ((old : TagSignature) × Entry c tag old))
unfolding is_duplicate
is_duplicate_cases c tag = ground (arith, lookup-add (compute_signature tag) (signature_of tag) c)

-- A tag is called a duplicate exactly if its hash has an entry of the same type and size within the window,
-- and changes nothing then. Otherwise it is let through, and is the entry under its hash from then on; where
-- the same tag follows, it is a duplicate, if the window is not negative.
pub is_duplicate_lem :
    (c : DedupCache) (tag : Tag)
    → (((is_duplicate c tag).0 ≡ true)
        × ((is_duplicate c tag).1 ≡ c)
        × ((old : TagSignature) × Entry c tag old))
      ⊎ (((is_duplicate c tag).0 ≡ false)
          × ((old : TagSignature) → Entry c tag old → ⊥)
          × (lookup (compute_signature tag) (is_duplicate c tag).1.signatures
              ≡ some (signature_of tag))
          × (lt_i32 c.window_ms 0 ≡ false → (is_duplicate (is_duplicate c tag).1 tag).0 ≡ true))
is_duplicate_lem c tag = elim (is_duplicate_cases c tag) [
  | inr hit ↦ inl hit
  | inl (let_in, added) ↦
      inr (let_in, λ old. no_Entry c tag old let_in, added, is_duplicate-is_duplicate c tag)
]
