-- ===== src/Prelude/Lookup.antt =====
-- A Go map with numeric keys as an association list in the order of insertion.
use Prim.Native.Nat.{ℕ, zero, suc}
use mathlib.Core.Path.{◌≡◌, refl, sym, ap, subst, ◌∙◌}
use mathlib.Core.Logic.{◌≢◌, inl, inr}
use mathlib.Core.Option.{Option, none, some}
use mathlib.Core.List.{List, [], ◌∷◌, ◌++◌}
use native.Mathlib.Omega.{arith}
use bilirec.Prelude.Tests.{◌==◌, if◌then◌else◌, Bool-cases}
use bilirec.Prelude.Lists.{length, drop}

module _ {ℓ} {V : Type ℓ} where
  -- `v, ok := m[k]`
  abbrev pub lookup : ℕ → List (ℕ × V) → Option V
  lookup k [] = none
  lookup k ((j, v) ∷ m) = if j == k then some v else lookup k m

  -- `m[k] = v`: in place for a key that is there, at the end for a new one.
  abbrev pub insert : ℕ → V → List (ℕ × V) → List (ℕ × V)
  insert k v [] = (k, v) ∷ []
  insert k v ((j, w) ∷ m) = if j == k then (k, v) ∷ m else (j, w) ∷ insert k v m

  -- `delete(m, k)`
  abbrev pub remove : ℕ → List (ℕ × V) → List (ℕ × V)
  remove k [] = []
  remove k ((j, w) ∷ m) = let rest = remove k m in if j == k then rest else (j, w) ∷ rest

  abbrev pub keys : List (ℕ × V) → List ℕ
  keys [] = []
  keys ((j, v) ∷ m) = j ∷ keys m

  pub lookup-insert :
      (k j : ℕ) (v : V) (m : List (ℕ × V))
      → lookup j (insert k v m) ≡ (if k == j then some v else lookup j m)
  lookup-insert k j v [] = refl
  lookup-insert k j v ((i, w) ∷ m) = ground (arith, lookup-insert k j v m)

  pub lookup-remove :
      (k j : ℕ) (m : List (ℕ × V)) → lookup j (remove k m) ≡ (if k == j then none else lookup j m)
  lookup-remove k j [] = ground arith
  lookup-remove k j ((i, w) ∷ m) = ground (arith, lookup-remove k j m)

-- No element is `k`, and no element stands twice.
abbrev pub Avoids : ℕ → List ℕ → Type 0
Avoids k [] = Unit {0}
Avoids k (x ∷ xs) = (x ≢ k) × Avoids k xs

abbrev pub Distinct : List ℕ → Type 0
Distinct [] = Unit {0}
Distinct (x ∷ xs) = Avoids x xs × Distinct xs

pub Avoids-append : (k j : ℕ) (xs : List ℕ) → Avoids k xs → j ≢ k → Avoids k (xs ++ j ∷ [])
Avoids-append k j [] h n = (n, tt)
Avoids-append k j (x ∷ xs) (h, hs) n = (h, Avoids-append k j xs hs n)

pub Distinct-append : (k : ℕ) (xs : List ℕ) → Distinct xs → Avoids k xs → Distinct (xs ++ k ∷ [])
Distinct-append k [] d a = (tt, tt)
Distinct-append k (x ∷ xs) (h, d) (n, a) =
    (Avoids-append x k xs h (λ e. n (sym e)), Distinct-append k xs d a)

pub Avoids-drop : (k n : ℕ) (xs : List ℕ) → Avoids k xs → Avoids k (drop n xs)
Avoids-drop k zero xs h = h
Avoids-drop k (suc n) [] h = tt
Avoids-drop k (suc n) (x ∷ xs) (h, hs) = Avoids-drop k n xs hs

pub Distinct-drop : (n : ℕ) (xs : List ℕ) → Distinct xs → Distinct (drop n xs)
Distinct-drop zero xs d = d
Distinct-drop (suc n) [] d = tt
Distinct-drop (suc n) (x ∷ xs) (h, d) = Distinct-drop n xs d

module _ {ℓ} {V : Type ℓ} where
  pub lookup-Avoids : (k : ℕ) (m : List (ℕ × V)) → lookup k m ≡ none → Avoids k (keys m)
  lookup-Avoids k [] h = tt
  lookup-Avoids k ((j, v) ∷ m) h = elim (Bool-cases (j == k)) [
    | inl e ↦ absurd (ground (arith, h, e))
    | inr e ↦ (λ (p : j ≡ k). ground arith, lookup-Avoids k m (ground arith))
  ]

  pub Avoids-lookup : (k : ℕ) (m : List (ℕ × V)) → Avoids k (keys m) → lookup k m ≡ none
  Avoids-lookup k [] h = refl
  Avoids-lookup k ((j, v) ∷ m) (h, hs) = ground (arith, Avoids-lookup k m hs)

  pub keys-insert_new :
      (k : ℕ) (v : V) (m : List (ℕ × V))
      → lookup k m ≡ none
      → keys (insert k v m) ≡ keys m ++ k ∷ []
  keys-insert_new k v [] h = refl
  keys-insert_new k v ((j, w) ∷ m) h = ground (arith, keys-insert_new k v m)

  pub keys-insert_old :
      (k : ℕ) (v w : V) (m : List (ℕ × V)) → lookup k m ≡ some w → keys (insert k v m) ≡ keys m
  keys-insert_old k v w [] h = cc
  keys-insert_old k v w ((j, u) ∷ m) h = ground (arith, keys-insert_old k v w m)

  pub remove-Avoids : (k : ℕ) (m : List (ℕ × V)) → Avoids k (keys m) → remove k m ≡ m
  remove-Avoids k [] h = refl
  remove-Avoids k ((j, v) ∷ m) (h, hs) = ground (arith, remove-Avoids k m hs)

  pub length-keys : (m : List (ℕ × V)) → length (keys m) ≡ length m
  length-keys [] = refl
  length-keys ((k, v) ∷ m) = ap suc (length-keys m)

-- A map whose keys are `pre ++ h ∷ hs`, each once: the entry of `h` is there, and can be removed.
not-Avoids : (h : ℕ) (pre hs : List ℕ) → ¬ (Avoids h (pre ++ h ∷ hs))
not-Avoids h [] hs (n, _) = n refl
not-Avoids h (x ∷ pre) hs (_, a) = not-Avoids h pre hs a

pub Avoids-middle : (k h : ℕ) (pre hs : List ℕ) → Avoids k (pre ++ h ∷ hs) → Avoids k (pre ++ hs)
Avoids-middle k h [] hs (_, a) = a
Avoids-middle k h (x ∷ pre) hs (n, a) = (n, Avoids-middle k h pre hs a)

Avoids-at : (k h : ℕ) (pre hs : List ℕ) → Avoids k (pre ++ h ∷ hs) → h ≢ k
Avoids-at k h [] hs (n, _) = n
Avoids-at k h (x ∷ pre) hs (_, a) = Avoids-at k h pre hs a

pub Distinct-middle : (h : ℕ) (pre hs : List ℕ) → Distinct (pre ++ h ∷ hs) → Distinct (pre ++ hs)
Distinct-middle h [] hs (_, d) = d
Distinct-middle h (x ∷ pre) hs (a, d) = (Avoids-middle x h pre hs a, Distinct-middle h pre hs d)

erase : ℕ → List ℕ → List ℕ
erase k [] = []
erase k (x ∷ xs) = let rest = erase k xs in if x == k then rest else x ∷ rest

erase-Avoids : (k : ℕ) (xs : List ℕ) → Avoids k xs → erase k xs ≡ xs
unfolding erase
erase-Avoids k [] a = refl
erase-Avoids k (x ∷ xs) (n, a) = ground (arith, erase-Avoids k xs a)

erase-middle :
    (h : ℕ) (pre hs : List ℕ) → Distinct (pre ++ h ∷ hs) → erase h (pre ++ h ∷ hs) ≡ pre ++ hs
unfolding erase
erase-middle h [] hs (a, d) = ground (arith, erase-Avoids h hs a)
erase-middle h (x ∷ pre) hs (a, d) = ground (arith, Avoids-at x h pre hs a, erase-middle h pre hs d)

module _ {ℓ} {V : Type ℓ} where
  pub lookup-middle :
      (h : ℕ) (pre hs : List ℕ) (m : List (ℕ × V)) → keys m ≡ pre ++ h ∷ hs → lookup h m ≢ none
  lookup-middle h pre hs m e n = not-Avoids h pre hs (subst (Avoids h) e (lookup-Avoids h m n))

  keys-remove : (k : ℕ) (m : List (ℕ × V)) → keys (remove k m) ≡ erase k (keys m)
  unfolding erase
  keys-remove k [] = refl
  keys-remove k ((j, v) ∷ m) = ground (arith, keys-remove k m)

  pub keys-remove_middle :
      (h : ℕ) (pre hs : List ℕ) (m : List (ℕ × V))
      → keys m ≡ pre ++ h ∷ hs
      → Distinct (pre ++ h ∷ hs)
      → keys (remove h m) ≡ pre ++ hs
  keys-remove_middle h pre hs m e d = keys-remove h m ∙ ap (erase h) e ∙ erase-middle h pre hs d
