-- ===== src/Ds/Set.antt =====
-- pkg/ds/set.go, mapset.go and synced_set.go. A set of keys, here numbers, is a list without
-- repetition; the lock of `syncedSet` makes each call atomic.
use bilirec.Prelude.{
  ℕ, ◌≡◌, refl, inl, inr, Bool, true, false, ◌||◌, List, [], ◌∷◌, ◌==◌, if◌then◌else◌, length,
  arith, Avoids, Distinct, Bool-cases,
}

unfoldable pub contains : ℕ → List ℕ → Bool
contains k [] = false
contains k (x ∷ xs) = x == k || contains k xs

-- `Add`: was the item there before, and the set after.
unfoldable pub add : ℕ → List ℕ → Bool × List ℕ
add k xs = if contains k xs then (true, xs) else (false, k ∷ xs)

unfoldable pub erase : ℕ → List ℕ → List ℕ
erase k [] = []
erase k (x ∷ xs) = let rest = erase k xs in if x == k then rest else x ∷ rest

-- `Remove`: was the item there, and the set after.
unfoldable pub remove : ℕ → List ℕ → Bool × List ℕ
unfolding erase
remove k xs = if contains k xs then (true, erase k xs) else (false, xs)

abbrev pub size : List ℕ → ℕ
size = length

contains-erase :
    (k j : ℕ) (xs : List ℕ) → contains j (erase k xs) ≡ (if k == j then false else contains j xs)
unfolding contains erase
contains-erase k j [] = ground arith
contains-erase k j (x ∷ xs) = ground (arith, contains-erase k j xs)

erase-absent : (k : ℕ) (xs : List ℕ) → contains k xs ≡ false → erase k xs ≡ xs
unfolding contains erase
erase-absent k [] h = refl
erase-absent k (x ∷ xs) h = ground (arith, erase-absent k xs)

pub remove-erase : (k : ℕ) (xs : List ℕ) → (remove k xs).1 ≡ erase k xs
unfolding remove
remove-erase k xs = ground (arith, erase-absent k xs)

pub remove-add : (k : ℕ) (xs : List ℕ) → contains k xs ≡ false → (remove k (k ∷ xs)).1 ≡ xs
unfolding erase
remove-add k xs h = rw (remove-erase k (k ∷ xs)) (ground (arith, erase-absent k xs))

pub contains-add :
    (k j : ℕ) (xs : List ℕ) → contains j (add k xs).1 ≡ (if k == j then true else contains j xs)
unfolding add contains
contains-add k j xs = elim (Bool-cases (k == j)) [
  | inl e ↦ let same : k ≡ j = ground arith in rw (e, ← same) (ground arith)
  | inr n ↦ ground arith
]

pub contains-remove :
    (k j : ℕ) (xs : List ℕ) → contains j (remove k xs).1 ≡ (if k == j then false else contains j xs)
unfolding remove
contains-remove k j xs = elim (Bool-cases (k == j)) [
  | inl e ↦
      let same : k ≡ j = ground arith in rw (e, ← same) (ground (arith, contains-erase k k xs))
  | inr n ↦ ground (arith, contains-erase k j xs)
]

pub contains-Avoids : (k : ℕ) (xs : List ℕ) → contains k xs ≡ false → Avoids k xs
unfolding contains
contains-Avoids k [] h = tt
contains-Avoids k (x ∷ xs) h = ((λ (e : x ≡ k). ground arith), contains-Avoids k xs (ground arith))

pub add-Distinct : (k : ℕ) (xs : List ℕ) → Distinct xs → Distinct (add k xs).1
unfolding add
add-Distinct k xs d = elim (Bool-cases (contains k xs)) [
  | inl e ↦ rw e d
  | inr e ↦ rw e (contains-Avoids k xs e, d)
]

erase-Avoids : (j k : ℕ) (xs : List ℕ) → Avoids j xs → Avoids j (erase k xs)
unfolding erase
erase-Avoids j k [] a = tt
erase-Avoids j k (x ∷ xs) (n, a) = elim (Bool-cases (x == k)) [
  | inl e ↦ rw e (erase-Avoids j k xs a)
  | inr e ↦ rw e (n, erase-Avoids j k xs a)
]

erase-Distinct : (k : ℕ) (xs : List ℕ) → Distinct xs → Distinct (erase k xs)
unfolding erase
erase-Distinct k [] d = tt
erase-Distinct k (x ∷ xs) (a, d) = elim (Bool-cases (x == k)) [
  | inl e ↦ rw e (erase-Distinct k xs d)
  | inr e ↦ rw e (erase-Avoids x k xs a, erase-Distinct k xs d)
]

pub remove-Distinct : (k : ℕ) (xs : List ℕ) → Distinct xs → Distinct (remove k xs).1
unfolding remove
remove-Distinct k xs d = ground (arith, erase-Distinct k xs d)
