-- ===== src/Flv/Dedup.antt =====
-- `DedupCache` (pkg/flv/fixer.go): the signatures of the tags seen, in a map and in a queue.
pub mod Invariant
pub mod Cleaning
pub mod Detection
use bilirec.Prelude.{
  ℕ, ◌+◌, ◌*◌, ◌/◌, ◌%◌, Bool, true, false, ◌&&◌, not, Option, none, some, List, [], ◌∷◌, ◌++◌, ltb,
  leb, ◌==◌, if◌then◌else◌, length, take, drop, bit_xor, lookup, insert, remove,
}
use bilirec.Prelude.Words.{sub32, neg32, lt_i32}
use bilirec.Flv.Tag.{Tag}
use mathlib.Core.Option

pub record TagSignature : Type 0 where
  pub hash : ℕ
  pub timestamp : ℕ
  pub type : ℕ
  pub data_size : ℕ

pub record DedupCache : Type 0 where
  pub signatures : List (ℕ × TagSignature)
  pub order : List ℕ
  pub max_size : ℕ
  pub window_ms : ℕ

unfoldable pub new_dedup_cache : ℕ → ℕ → DedupCache
new_dedup_cache max_size window_ms = record {
  signatures = [];
  order = [];
  max_size = max_size;
  window_ms = window_ms;
}

abbrev u64_mod : ℕ
u64_mod = 0x1_0000_0000_0000_0000

-- `hash ^= x; hash *= fnvPrime64`
hash_step : ℕ → ℕ → ℕ
hash_step hash x = bit_xor hash x * 1099511628211 % u64_mod

hash_bytes : ℕ → List ℕ → ℕ
hash_bytes hash [] = hash
hash_bytes hash (b ∷ bs) = hash_bytes (hash_step hash b) bs

unfoldable pub compute_signature : Tag → ℕ
unfolding hash_step hash_bytes
compute_signature tag =
    hash_bytes
      (hash_step (hash_step (hash_step 1469598103934665603 tag.type) tag.timestamp) tag.data_size)
      (take 32 tag.payload)

-- `if timeDiff < 0 { timeDiff = -timeDiff }`
abbrev pub time_distance : ℕ → ℕ → ℕ
time_distance a b = let diff = sub32 a b in if lt_i32 diff 0 then neg32 diff else diff

remove_all : List ℕ → List (ℕ × TagSignature) → List (ℕ × TagSignature)
remove_all [] m = m
remove_all (h ∷ hs) m = remove_all hs (remove h m)

-- `take` and `drop` stop at the end of the queue, as the source's `removeCount` does.
pub evict_oldest : ℕ → DedupCache → DedupCache
unfolding remove_all
evict_oldest count c = if ltb count 1 then c else record c {
  signatures = remove_all (take count c.order) c.signatures;
  order = drop count c.order;
}

abbrev pub at_least_one : ℕ → ℕ
at_least_one n = if ltb n 1 then 1 else n

add_new : ℕ → TagSignature → DedupCache → DedupCache
add_new hash sig c = record c {
  signatures = insert hash sig c.signatures;
  order = c.order ++ hash ∷ [];
}

-- The map's size is its number of keys.
pub add : ℕ → TagSignature → DedupCache → DedupCache
unfolding add_new evict_oldest
add hash sig c = elim (lookup hash c.signatures) [
  | some old ↦ record c { signatures = insert hash sig c.signatures }
  | none ↦ add_new hash sig (
      if leb c.max_size (length c.signatures)
      then evict_oldest (at_least_one (c.max_size / 5)) c
      else c)
]

abbrev pub signature_of : Tag → TagSignature
signature_of tag = record {
  hash = compute_signature tag;
  timestamp = tag.timestamp;
  type = tag.type;
  data_size = tag.data_size;
}

-- The entry under the tag's hash makes it a duplicate.
abbrev matches : ℕ → Tag → TagSignature → Bool
matches window tag old =
    not (lt_i32 window (time_distance tag.timestamp old.timestamp))
    && (old.type == tag.type && old.data_size == tag.data_size)

unfoldable pub is_duplicate : DedupCache → Tag → Bool × DedupCache
unfolding add
is_duplicate c tag =
    let fresh : Bool × DedupCache = (false, add (compute_signature tag) (signature_of tag) c) in
    elim (lookup (compute_signature tag) c.signatures) [
      | none ↦ fresh
      | some old ↦ if matches c.window_ms tag old then (true, c) else fresh
    ]

unfoldable pub in_double_window : ℕ → ℕ → TagSignature → Bool
in_double_window window now sig =
    not (lt_i32 (window * 2 % 0x1_0000_0000) (time_distance now sig.timestamp))

-- The queue is read and written in place, the write never ahead of the read. `none` is the fault
-- of reading through a nil pointer, for a hash that the map lacks.
clean_loop : ℕ → ℕ → List ℕ → List (ℕ × TagSignature) → Option (List ℕ × List (ℕ × TagSignature))
clean_loop window now [] m = some ([], m)
clean_loop window now (h ∷ hs) m = elim (lookup h m) [
  | none ↦ none
  | some sig ↦ elim (in_double_window window now sig) [
    | true ↦ Option.map (λ r. (h ∷ r.0, r.1)) (clean_loop window now hs m)
    | false ↦ clean_loop window now hs (remove h m)
  ]
]

unfoldable pub clean_old : ℕ → DedupCache → Option DedupCache
unfolding clean_loop
clean_old now c =
    Option.map (λ r. record c { signatures = r.1; order = r.0 })
      (clean_loop c.window_ms now c.order c.signatures)

abbrev pub high_water_size : DedupCache → ℕ
high_water_size c = c.max_size * 4 / 5

abbrev pub is_above_high_water : DedupCache → Bool
is_above_high_water c = leb (high_water_size c) (length c.signatures)

evict_high_water : DedupCache → DedupCache
unfolding evict_oldest
evict_high_water c =
    if is_above_high_water c then evict_oldest (at_least_one (c.max_size / 10)) c else c

unfoldable pub clean_high_water : ℕ → DedupCache → Option DedupCache
unfolding evict_high_water
clean_high_water now c =
    if is_above_high_water c then Option.map evict_high_water (clean_old now c) else some c

pub reset_cache : DedupCache → DedupCache
reset_cache c = record c { signatures = []; order = [] }

pub get_stats : DedupCache → ℕ × ℕ
get_stats c = (length c.signatures, c.max_size)
