-- ===== src/Flv/Timestamps/Steady.antt =====
-- What `fixTimestamp` makes of a stream of tags.
use bilirec.Prelude.{
  ℕ, ◌+◌, ◌-◌, ◌*◌, ◌≤◌, ◌<◌, ◌≡◌, Bool, true, false, none, List, [], ◌∷◌, arith, length, All,
}
use bilirec.Prelude.Words.{IsU32, sub32, bias}
use bilirec.Flv.Tag.{Tag}
use bilirec.Flv.Timestamps.{TimestampStore, reset_store, fix_timestamp, jumps}

-- The store follows a stream whose last output is `p`: the last source timestamp lies at most `b`
-- from the offset, `p` is that distance with negative values moved to 0, and the target is one
-- frame after `p`.
pub record Tracks (s : TimestampStore) (p b : ℕ) : Type 0 where
  pub started : s.first_chunk ≡ false
  pub last_word : IsU32 s.last_original
  pub offset_word : IsU32 s.current_offset
  pub low : 0x8000_0000 ≤ bias (sub32 s.last_original s.current_offset) + b
  pub high : bias (sub32 s.last_original s.current_offset) ≤ 0x8000_0000 + b
  pub last_output : p ≡ bias (sub32 s.last_original s.current_offset) - 0x8000_0000
  pub target_low : p + 22 ≤ s.next_timestamp_target
  pub target_high : s.next_timestamp_target ≤ p + 33

fix_timestamp-Tracks :
    (rotation : Bool) (s : TimestampStore) (p b : ℕ) (tag : Tag)
    → Tracks s p b
    → b + 600 < 0x8000_0000
    → IsU32 tag.timestamp
    → Tracks
        (fix_timestamp rotation s tag).store
        (fix_timestamp rotation s tag).tag.timestamp
        (b + 500)
unfolding fix_timestamp
fix_timestamp-Tracks rotation s p b tag v hb ht = ground arith

-- A jump puts the tag at the target, and no output is further than 500 ms from the one before.
fix_timestamp_near :
    (rotation : Bool) (s : TimestampStore) (p b : ℕ) (tag : Tag)
    → Tracks s p b
    → b + 600 < 0x8000_0000
    → IsU32 tag.timestamp
    → ((fix_timestamp rotation s tag).tag.timestamp ≤ p + 500)
      × (p ≤ (fix_timestamp rotation s tag).tag.timestamp + 500)
unfolding fix_timestamp
fix_timestamp_near rotation s p b tag v hb ht = ground arith

-- After a jump the stream goes on one frame after the last output.
pub fix_timestamp_jump :
    (rotation : Bool) (s : TimestampStore) (p b : ℕ) (tag : Tag)
    → Tracks s p b
    → b + 600 < 0x8000_0000
    → IsU32 tag.timestamp
    → jumps (sub32 tag.timestamp s.last_original) s.last_original ≡ true
    → (fix_timestamp rotation s tag).tag.timestamp ≡ s.next_timestamp_target
unfolding fix_timestamp
fix_timestamp_jump rotation s p b tag v hb ht hj = ground arith

-- Without a jump the distance between two tags is kept, where neither output was moved up to 0.
pub fix_timestamp_distance :
    (rotation : Bool) (s : TimestampStore) (p b : ℕ) (tag : Tag)
    → Tracks s p b
    → b + 600 < 0x8000_0000
    → IsU32 tag.timestamp
    → jumps (sub32 tag.timestamp s.last_original) s.last_original ≡ false
    → 0 < p
    → 0 < (fix_timestamp rotation s tag).tag.timestamp
    → sub32 (fix_timestamp rotation s tag).tag.timestamp p ≡ sub32 tag.timestamp s.last_original
unfolding fix_timestamp
fix_timestamp_distance rotation s p b tag v hb ht hj hp ho = ground arith

-- The first tag after a reset is written at time 0, and no warning is queued.
fix_timestamp_first :
    (rotation : Bool) (tag : Tag)
    → IsU32 tag.timestamp
    → Tracks (fix_timestamp rotation reset_store tag).store 0 0
      × ((fix_timestamp rotation reset_store tag).tag.timestamp ≡ 0)
      × ((fix_timestamp rotation reset_store tag).warning ≡ none)
unfolding fix_timestamp reset_store
fix_timestamp_first rotation tag ht = ground arith

-- The outputs for a list of tags, from the store on.
unfoldable pub fix_all : Bool → TimestampStore → List Tag → List Tag
fix_all rotation s [] = []
fix_all rotation s (t ∷ ts) =
    let r = fix_timestamp rotation s t in r.tag ∷ fix_all rotation r.store ts

-- Each timestamp lies within 500 ms of the one before, the first within 500 ms of `p`.
abbrev pub Near : ℕ → List Tag → Type 0
Near p [] = Unit {0}
Near p (t ∷ ts) = (t.timestamp ≤ p + 500) × (p ≤ t.timestamp + 500) × Near t.timestamp ts

abbrev pub HasWord : Tag → Type 0
HasWord t = IsU32 t.timestamp

fix_all-Near :
    (rotation : Bool) (s : TimestampStore) (p b : ℕ) (ts : List Tag)
    → Tracks s p b
    → b + 500 * length ts + 600 < 0x8000_0000
    → All HasWord ts
    → Near p (fix_all rotation s ts)
unfolding fix_all
fix_all-Near rotation s p b [] v hb h = tt
fix_all-Near rotation s p b (t ∷ ts) v hb (h, hs) =
    let (up, down) = fix_timestamp_near rotation s p b t v (omega arith) h in
    (
      up,
      down,
      fix_all-Near rotation (fix_timestamp rotation s t).store
          (fix_timestamp rotation s t).tag.timestamp (b + 500) ts
          (fix_timestamp-Tracks rotation s p b t v (omega arith) h) (omega arith) hs,
    )

-- The first tag stands at 0.
abbrev pub StartsNear : List Tag → Type 0
StartsNear [] = Unit {0}
StartsNear (t ∷ ts) = (t.timestamp ≡ 0) × Near 0 ts

-- For up to four million tags after a reset, with any source timestamps that are 32-bit words:
-- the first is written at time 0, and neighbours are at most 500 ms apart in either direction.
pub fix_all-StartsNear :
    (rotation : Bool) (ts : List Tag)
    → length ts ≤ 4_000_000
    → All HasWord ts
    → StartsNear (fix_all rotation reset_store ts)
fix_all-StartsNear rotation [] hn h = unfold fix_all in tt
fix_all-StartsNear rotation (t ∷ ts) hn (h, hs) =
    let (tracks, at_zero, quiet) = fix_timestamp_first rotation t h in
    unfold fix_all in
    (
      at_zero,
      fix_all-Near rotation (fix_timestamp rotation reset_store t).store 0 0 ts tracks (omega arith)
          hs,
    )
