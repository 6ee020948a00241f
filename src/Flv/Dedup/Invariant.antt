-- ===== src/Flv/Dedup/Invariant.antt =====
-- The map and the queue of the cache hold the same hashes, each once and within the capacity.
use bilirec.Prelude.{
  ℕ, zero, suc, ◌-◌, ◌≤◌, ◌<◌, ◌≡◌, refl, ap, sym, ◌∙◌, inl, inr, List, [], ◌∷◌, ◌++◌, leb,
  if◌then◌else◌, length, take, drop, lookup, keys, arith, Distinct, Avoids, Distinct-append,
  Distinct-drop, lookup-Avoids, Avoids-lookup, Avoids-drop, subst, ◌/◌, keys-insert_new,
  keys-insert_old, remove-Avoids, length-keys, length-append, length-drop, Option-cases, Bool-cases,
}
use bilirec.Flv.Tag.{Tag}
use bilirec.Flv.Dedup.{
  TagSignature, DedupCache, remove_all, evict_oldest, add_new, add, is_duplicate, compute_signature,
  at_least_one, signature_of,
}

pub record IsConsistent (c : DedupCache) : Type 0 where
  pub same_hashes : keys c.signatures ≡ c.order
  pub once : Distinct c.order
  pub room : 0 < c.max_size
  pub bounded : length c.order ≤ c.max_size

-- Removing the first hashes of the queue removes the first entries of the map.
keys-remove_all :
    (n : ℕ) (m : List (ℕ × TagSignature))
    → Distinct (keys m)
    → keys (remove_all (take n (keys m)) m) ≡ drop n (keys m)
unfolding remove_all
keys-remove_all zero m d = refl
keys-remove_all (suc n) [] d = refl
keys-remove_all (suc n) ((k, v) ∷ m) (h, d) =
    ground (arith, remove-Avoids k m h, keys-remove_all n m d)

evict_keys :
    (n : ℕ) (c : DedupCache)
    → IsConsistent c
    → keys (remove_all (take n c.order) c.signatures) ≡ drop n c.order
evict_keys n c v =
    subst (λ o. Distinct o → keys (remove_all (take n o) c.signatures) ≡ drop n o) v.same_hashes
      (keys-remove_all n c.signatures) v.once

pub evict_oldest-IsConsistent :
    (n : ℕ) (c : DedupCache) → IsConsistent c → IsConsistent (evict_oldest n c)
unfolding evict_oldest
evict_oldest-IsConsistent n c v =
    ground (arith, evict_keys n c v, Distinct-drop n c.order v.once, length-drop n c.order)

pub evict_oldest_smaller :
    (n : ℕ) (c : DedupCache) → IsConsistent c → length (evict_oldest n c).order ≡ length c.order - n
unfolding evict_oldest
evict_oldest_smaller n c v = ground (arith, length-drop n c.order)

evict_oldest-Avoids :
    (n k : ℕ) (c : DedupCache) → Avoids k c.order → Avoids k (evict_oldest n c).order
unfolding evict_oldest
evict_oldest-Avoids n k c a = ground (arith, Avoids-drop k n c.order a)

pub evict_oldest_settings :
    (n : ℕ) (c : DedupCache)
    → ((evict_oldest n c).max_size ≡ c.max_size) × ((evict_oldest n c).window_ms ≡ c.window_ms)
unfolding evict_oldest
evict_oldest_settings n c = ground arith

pub length-signatures : (c : DedupCache) → IsConsistent c → length c.signatures ≡ length c.order
length-signatures c v = omega (arith, length-keys c.signatures, ap length v.same_hashes)

add_new-IsConsistent :
    (hash : ℕ) (sig : TagSignature) (c : DedupCache)
    → IsConsistent c
    → Avoids hash c.order
    → length c.order < c.max_size
    → IsConsistent (add_new hash sig c)
unfolding add_new
add_new-IsConsistent hash sig c v a h = record {
  same_hashes =
      keys-insert_new hash sig c.signatures
        (Avoids-lookup hash c.signatures (subst (Avoids hash) (sym v.same_hashes) a))
      ∙ ap (λ o. o ++ hash ∷ []) v.same_hashes;
  once = Distinct-append hash c.order v.once a;
  room = v.room;
  bounded = omega (arith, length-append c.order (hash ∷ []));
}

make_room-IsConsistent :
    (hash : ℕ) (sig : TagSignature) (c : DedupCache)
    → IsConsistent c
    → Avoids hash c.order
    → IsConsistent (
        add_new hash sig (
          if leb c.max_size (length c.signatures)
          then evict_oldest (at_least_one (c.max_size / 5)) c
          else c))
make_room-IsConsistent hash sig c v a =
    let n = at_least_one (c.max_size / 5) in
    elim (Bool-cases (leb c.max_size (length c.signatures))) [
      | inl full ↦ rw full (
          add_new-IsConsistent hash sig (evict_oldest n c) (evict_oldest-IsConsistent n c v)
            (evict_oldest-Avoids n hash c a)
            (ground (arith, evict_oldest_smaller n c v, evict_oldest_settings n c, v)))
      | inr free ↦
          rw free (add_new-IsConsistent hash sig c v a (ground (arith, length-signatures c v)))
    ]

pub add-IsConsistent :
    (hash : ℕ) (sig : TagSignature) (c : DedupCache)
    → IsConsistent c
    → IsConsistent (add hash sig c)
unfolding add
add-IsConsistent hash sig c v = elim (Option-cases (lookup hash c.signatures)) [
  | inl e ↦
      rw (e, add)
        (make_room-IsConsistent hash sig c v
          (subst (Avoids hash) v.same_hashes (lookup-Avoids hash c.signatures e)))
  | inr (old, e) ↦
      rw (e, add)
        (record {
          same_hashes = keys-insert_old hash sig old c.signatures e ∙ v.same_hashes;
          once = v.once;
          room = v.room;
          bounded = v.bounded;
        })
]

pub is_duplicate-IsConsistent :
    (c : DedupCache) (tag : Tag) → IsConsistent c → IsConsistent (is_duplicate c tag).1
unfolding is_duplicate
is_duplicate-IsConsistent c tag v =
    ground (arith, add-IsConsistent (compute_signature tag) (signature_of tag) c v)
