-- ===== src/Flv/Dedup/Cleaning.antt =====
-- The cleanup by age: it does not read through a nil pointer, and keeps exactly the recent entries.
use bilirec.Prelude.{
  ℕ, ◌+◌, ◌-◌, ◌≤◌, ◌<◌, ◌≡◌, refl, sym, ◌∙◌, inl, inr, Bool, true, false, ◌||◌, Option, none, some,
  List, [], ◌∷◌, ◌++◌, ◌⊎◌, ◌/◌, ◌==◌, if◌then◌else◌, length, lookup, remove, lookup-remove, keys,
  arith, append_assoc, Distinct, Distinct-middle, lookup-middle, keys-remove_middle, Option-cases,
  Bool-cases, subst,
}
use bilirec.Flv.Dedup.{
  TagSignature, DedupCache, clean_loop, clean_old, clean_high_water, in_double_window, at_least_one,
  evict_high_water, is_above_high_water, high_water_size,
}
use bilirec.Flv.Dedup.Invariant.{
  IsConsistent, evict_oldest-IsConsistent, evict_oldest_smaller, evict_oldest_settings,
  length-signatures,
}

abbrev Entries : Type 0
Entries = List (ℕ × TagSignature)

-- What a cleaning at `now` leaves of an entry.
abbrev pub survives : ℕ → ℕ → Option TagSignature → Option TagSignature
survives window now none = none
survives window now (some sig) = if in_double_window window now sig then some sig else none

contains : ℕ → List ℕ → Bool
contains k [] = false
contains k (x ∷ xs) = x == k || contains k xs

record Cleaned (window now : ℕ) (pre hs : List ℕ) (m : Entries) (kept : List ℕ) (m' : Entries)
    : Type 0 where
  result : clean_loop window now hs m ≡ some (kept, m')
  same_hashes : keys m' ≡ pre ++ kept
  once : Distinct (pre ++ kept)
  shorter : length kept ≤ length hs
  entries :
      (k : ℕ)
      → lookup k m' ≡ (if contains k hs then survives window now (lookup k m) else lookup k m)

module _ (window now h : ℕ) (pre hs : List ℕ) (m : Entries) (sig : TagSignature) where
  keep_head :
      (kept : List ℕ) (m' : Entries)
      → lookup h m ≡ some sig
      → in_double_window window now sig ≡ true
      → Cleaned window now (pre ++ h ∷ []) hs m kept m'
      → Cleaned window now pre (h ∷ hs) m (h ∷ kept) m'
  unfolding clean_loop contains
  keep_head kept m' found recent c = record {
    result = ground (arith, c.result);
    same_hashes = c.same_hashes ∙ append_assoc pre (h ∷ []) kept;
    once = subst Distinct (append_assoc pre (h ∷ []) kept) c.once;
    shorter = omega (arith, c.shorter);
    entries = λ k. ground (arith, c.entries k);
  }

  drop_head :
      (kept : List ℕ) (m' : Entries)
      → lookup h m ≡ some sig
      → in_double_window window now sig ≡ false
      → Cleaned window now pre hs (remove h m) kept m'
      → Cleaned window now pre (h ∷ hs) m kept m'
  unfolding clean_loop contains
  drop_head kept m' found old c = record {
    result = ground (arith, c.result);
    same_hashes = c.same_hashes;
    once = c.once;
    shorter = omega (arith, c.shorter);
    entries = λ k. ground (arith, c.entries k, lookup-remove h k m);
  }

module _ (window now : ℕ) where
  clean_loop-Cleaned :
      (pre hs : List ℕ) (m : Entries)
      → keys m ≡ pre ++ hs
      → Distinct (pre ++ hs)
      → (kept : List ℕ) × (m' : Entries) × Cleaned window now pre hs m kept m'
  unfolding clean_loop contains
  clean_loop-Cleaned pre [] m e d = (
    [],
    m,
    record { result = refl; same_hashes = e; once = d; shorter = omega arith; entries = λ k. refl },
  )
  clean_loop-Cleaned pre (h ∷ hs) m e d = elim (Option-cases (lookup h m)) [
    | inl missing ↦ absurd (lookup-middle h pre hs m e missing)
    | inr (sig, found) ↦ elim (Bool-cases (in_double_window window now sig)) [
      | inl recent ↦
          let (kept, m', c) =
            clean_loop-Cleaned (pre ++ h ∷ []) hs m (e ∙ sym (append_assoc pre (h ∷ []) hs))
              (subst Distinct (sym (append_assoc pre (h ∷ []) hs)) d) in
          (h ∷ kept, m', keep_head window now h pre hs m sig kept m' found recent c)
      | inr old ↦
          let (kept, m', c) =
            clean_loop-Cleaned pre hs (remove h m) (keys-remove_middle h pre hs m e d)
              (Distinct-middle h pre hs d) in
          (kept, m', drop_head window now h pre hs m sig kept m' found old c)
    ]
  ]

contains-keys :
    (window now k : ℕ) (m : Entries)
    → (if contains k (keys m) then survives window now (lookup k m) else lookup k m)
      ≡ survives window now (lookup k m)
unfolding contains
contains-keys window now k [] = refl
contains-keys window now k ((j, v) ∷ m) = elim (Bool-cases (j == k)) [
  | inl e ↦ rw e
  | inr e ↦ rw e (contains-keys window now k m)
]

-- On a consistent cache the cleanup by age reads through no nil pointer, leaves a consistent cache
-- that is no larger, and keeps an entry exactly if it lies within twice the window.
pub clean_old_lem :
    (now : ℕ) (c : DedupCache)
    → IsConsistent c
    → (c' : DedupCache) × (clean_old now c ≡ some c')
      × IsConsistent c'
      × (c'.max_size ≡ c.max_size)
      × (length c'.order ≤ length c.order)
      × ((k : ℕ) → lookup k c'.signatures ≡ survives c.window_ms now (lookup k c.signatures))
unfolding clean_old
clean_old_lem now c v =
    let (kept, m', r) =
      clean_loop-Cleaned c.window_ms now [] c.order c.signatures v.same_hashes v.once in
    (
      record c { signatures = m'; order = kept },
      rw r.result,
      record {
        same_hashes = r.same_hashes;
        once = r.once;
        room = v.room;
        bounded = omega (arith, r.shorter, v.bounded);
      },
      refl,
      r.shorter,
      λ k.
          r.entries k
          ∙ subst
              (λ o.
                (if contains k o
                  then survives c.window_ms now (lookup k c.signatures)
                  else lookup k c.signatures)
                ≡ survives c.window_ms now (lookup k c.signatures))
              v.same_hashes (contains-keys c.window_ms now k c.signatures),
    )

evict_high_water_lem :
    (c : DedupCache)
    → IsConsistent c
    → IsConsistent (evict_high_water c)
      × (length (evict_high_water c).order ≤ length c.order)
      × ((length c.order < high_water_size c)
          ⊎ (length (evict_high_water c).order ≡ length c.order - at_least_one (c.max_size / 10)))
unfolding evict_high_water
evict_high_water_lem c v =
    let n = at_least_one (c.max_size / 10) in
    elim (Bool-cases (is_above_high_water c)) [
      | inl high ↦ rw high (
        evict_oldest-IsConsistent n c v,
        omega (arith, evict_oldest_smaller n c v),
        inr (evict_oldest_smaller n c v),
      )
      | inr low ↦ rw low (v, omega arith, inl (ground (arith, length-signatures c v)))
    ]

evict_high_water_size : (c : DedupCache) → (evict_high_water c).max_size ≡ c.max_size
unfolding evict_high_water
evict_high_water_size c = ground (arith, evict_oldest_settings (at_least_one (c.max_size / 10)) c)

-- On a consistent cache for two entries or more the high-water cleanup reads through no nil pointer and leaves a consistent
-- cache that is no larger. If the cache was at 80 % of its capacity or above, then afterwards it is
-- below that mark, or it is smaller by a tenth of the capacity, by one entry at least.
pub clean_high_water_lem :
    (now : ℕ) (c : DedupCache)
    → IsConsistent c
    → 1 < c.max_size
    → (c' : DedupCache) × (clean_high_water now c ≡ some c')
      × IsConsistent c'
      × (c'.max_size ≡ c.max_size)
      × (length c'.order ≤ length c.order)
      × (high_water_size c ≤ length c.order
          → (length c'.order < high_water_size c)
            ⊎ (length c'.order + at_least_one (c.max_size / 10) ≤ length c.order))
unfolding clean_high_water
clean_high_water_lem now c v two = elim (Bool-cases (is_above_high_water c)) [
  | inl high ↦
      let (c', result, v', size, shorter, _) = clean_old_lem now c v in
      let (w, less, cut) = evict_high_water_lem c' v' in
      (
        evict_high_water c',
        rw (high, result),
        w,
        omega (arith, evict_high_water_size c'),
        omega arith,
        λ _. ground (arith, cut),
      )
  | inr low ↦ (c, rw low, v, refl, omega arith, λ h. inl (ground (arith, length-signatures c v)))
]
