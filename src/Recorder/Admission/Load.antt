-- ===== src/Recorder/Admission/Load.antt =====
-- Counting the recordings and the pending rooms.
use bilirec.Prelude.{
  ℕ, ◌+◌, ◌≤◌, ◌≡◌, refl, inl, inr, Bool, true, false, none, some, List, [], ◌∷◌, ◌==◌,
  if◌then◌else◌, length, arith, lookup, insert, remove, Avoids, Distinct, Bool-cases, lookup-insert,
  lookup-remove, subst,
}
use bilirec.Ds.Set
use bilirec.Ds.Set.{
  contains, erase, remove-erase, remove-add, contains-Avoids, contains-add, contains-remove,
  add-Distinct, remove-Distinct,
}
use bilirec.Recorder.Admission.{Info, Recordings}

unfoldable pub has : ℕ → Recordings → Bool
has k m = elim (lookup k m) [ none ↦ false | some i ↦ true ]

pub has-lookup : (k : ℕ) (m : Recordings) (i : Info) → lookup k m ≡ some i → has k m ≡ true
unfolding has
has-lookup k m i h = rw (h, has) refl

-- How many of the rooms have no recording.
unfoldable pub fresh : Recordings → List ℕ → ℕ
fresh m [] = 0
fresh m (k ∷ ks) = if has k m then fresh m ks else 1 + fresh m ks

pub fresh_le : (m : Recordings) (ks : List ℕ) → fresh m ks ≤ length ks
unfolding fresh
fresh_le m [] = omega arith
fresh_le m (k ∷ ks) = ground (arith, fresh_le m ks)

pub fresh-erase : (m : Recordings) (k : ℕ) (ks : List ℕ) → fresh m (erase k ks) ≤ fresh m ks
unfolding fresh erase
fresh-erase m k [] = omega arith
fresh-erase m k (j ∷ ks) = ground (arith, fresh-erase m k ks)

pub fresh-erase_member :
    (m : Recordings) (k : ℕ) (ks : List ℕ)
    → contains k ks ≡ true
    → has k m ≡ false
    → fresh m (erase k ks) + 1 ≤ fresh m ks
unfolding fresh erase Set.contains
fresh-erase_member m k [] c h = absurd (ground arith)
fresh-erase_member m k (j ∷ ks) c h = elim (Bool-cases (j == k)) [
  | inl e ↦ let same : j ≡ k = ground arith in rw (e, same, h) (omega (arith, fresh-erase m k ks))
  | inr n ↦ ground (arith, fresh-erase_member m k ks)
]

-- A room that is added to the recordings only takes rooms away from those without one.
pub fresh-insert :
    (m : Recordings) (k : ℕ) (v : Info) (ks : List ℕ) → fresh (insert k v m) ks ≤ fresh m ks
unfolding fresh has
fresh-insert m k v [] = omega arith
fresh-insert m k v (j ∷ ks) = ground (arith, lookup-insert k j v m, fresh-insert m k v ks)

fresh-remove-Avoids :
    (m : Recordings) (k : ℕ) (ks : List ℕ) → Avoids k ks → fresh (remove k m) ks ≡ fresh m ks
unfolding fresh has
fresh-remove-Avoids m k [] a = refl
fresh-remove-Avoids m k (j ∷ ks) (n, a) =
    ground (arith, lookup-remove k j m, fresh-remove-Avoids m k ks a)

pub fresh-remove :
    (m : Recordings) (k : ℕ) (ks : List ℕ) → Distinct ks → fresh (remove k m) ks ≤ fresh m ks + 1
unfolding fresh has
fresh-remove m k [] d = omega arith
fresh-remove m k (j ∷ ks) (a, d) = elim (Bool-cases (j == k)) [
  | inl e ↦
      let same : j ≡ k = ground arith in
      ground (arith, fresh-remove-Avoids m k ks (subst (λ x. Avoids x ks) same a))
  | inr n ↦ ground (arith, lookup-remove k j m, fresh-remove m k ks d)
]

pub length-insert_new :
    (k : ℕ) (v : Info) (m : Recordings) → has k m ≡ false → length (insert k v m) ≡ length m + 1
unfolding has
length-insert_new k v [] h = omega arith
length-insert_new k v ((j, w) ∷ m) h = ground (arith, length-insert_new k v m)

pub length-insert_old :
    (k : ℕ) (v : Info) (m : Recordings) → has k m ≡ true → length (insert k v m) ≡ length m
unfolding has
length-insert_old k v [] h = absurd (ground arith)
length-insert_old k v ((j, w) ∷ m) h = ground (arith, length-insert_old k v m)

length-remove : (k : ℕ) (m : Recordings) → length (remove k m) ≤ length m
length-remove k [] = omega arith
length-remove k ((j, w) ∷ m) = ground (arith, length-remove k m)

pub length-remove_old :
    (k : ℕ) (m : Recordings) → has k m ≡ true → length (remove k m) + 1 ≤ length m
unfolding has
length-remove_old k [] h = absurd (ground arith)
length-remove_old k ((j, w) ∷ m) h = ground (arith, length-remove_old k m, length-remove k m)
