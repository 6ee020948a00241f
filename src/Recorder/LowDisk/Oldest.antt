-- ===== src/Recorder/LowDisk/Oldest.antt =====
-- Which recordings are deleted, and when a recording may begin.
use bilirec.Prelude.{
  ℕ, suc, ◌+◌, ◌-◌, ◌≤◌, ◌<◌, ◌≡◌, ◌⊎◌, inl, inr, refl, sym, ap, ◌∙◌, subst, Bool, true, false,
  ◌||◌, not, Option, none, some, List, [], ◌∷◌, ◌++◌, if◌then◌else◌, if_cases, if_true, if_false,
  length, take, ltb, leb, leb→le, ◌==◌, ==_iff, arith, Bool-cases, append_assoc, append-nil,
  length-append, take-append_le, take_all,
}
use bilirec.Recorder.LowDisk.{
  RecordingFile, is_insufficient_disk_space, Freed, delete_loop, delete_until, DiskResult,
  enough_space, insufficient_disk_space, check_space, Pass, after_delete, run_pass, run_passes,
  ensure_disk_space,
}

abbrev pub total_size : List RecordingFile → ℕ
total_size [] = 0
total_size (f ∷ fs) = f.size + total_size fs

total_size-append :
    (xs ys : List RecordingFile) → total_size (xs ++ ys) ≡ total_size xs + total_size ys
total_size-append [] ys = omega arith
total_size-append (x ∷ xs) ys = omega (arith, total_size-append xs ys)

module _ (writing removes : RecordingFile → Bool) where
  -- The files that can be deleted.
  abbrev pub removable : List RecordingFile → List RecordingFile
  removable [] = []
  removable (f ∷ fs) =
      let rest = removable fs in if writing f || not (removes f) then rest else f ∷ rest

  -- No file was deleted once enough was freed.
  abbrev pub StopsAt : ℕ → List RecordingFile → Type 0
  StopsAt need deleted = (j : ℕ) → j < length deleted → total_size (take j deleted) < need

  abbrev pub IsOldestFirst : ℕ → List RecordingFile → Freed → Type 0
  IsOldestFirst need files r =
      (k : ℕ) × (r.deleted ≡ removable (take k files))
      × (r.freed ≡ total_size r.deleted)
      × ((need ≤ r.freed) ⊎ (k ≡ length files))
      × StopsAt need r.deleted

  abbrev Loops : ℕ → List RecordingFile → Freed → Freed → Type 0
  Loops need files r out =
      (k : ℕ) × (out.deleted ≡ r.deleted ++ removable (take k files))
      × (out.freed ≡ total_size out.deleted)
      × ((need ≤ out.freed) ⊎ (k ≡ length files))
      × StopsAt need out.deleted

  Loops-skip :
      (need : ℕ) (f : RecordingFile) (files : List RecordingFile) (r out : Freed)
      → (writing f || not (removes f)) ≡ true
      → Loops need files r out
      → Loops need (f ∷ files) r out
  Loops-skip need f files r out kept (k, picked, sum, enough, stops) = (
    suc k,
    picked ∙ ap (λ (t : List RecordingFile). r.deleted ++ t) (sym (if_true _ _ kept)),
    sum,
    ground arith,
    stops,
  )

  Loops-take :
      (need : ℕ) (f : RecordingFile) (files : List RecordingFile) (r next out : Freed)
      → (writing f || not (removes f)) ≡ false
      → next.deleted ≡ r.deleted ++ (f ∷ [])
      → Loops need files next out
      → Loops need (f ∷ files) r out
  Loops-take need f files r next out gone grown (k, picked, sum, enough, stops) = (
    suc k,
    picked
        ∙ (ap (λ (t : List RecordingFile). t ++ removable (take k files)) grown
            ∙ (append_assoc r.deleted (f ∷ []) (removable (take k files))
                ∙ ap (λ (t : List RecordingFile). r.deleted ++ t) (sym (if_false _ _ gone)))),
    sum,
    ground arith,
    stops,
  )

  StopsAt-append :
      (need : ℕ) (deleted : List RecordingFile) (f : RecordingFile)
      → total_size deleted < need
      → StopsAt need deleted
      → StopsAt need (deleted ++ (f ∷ []))
  StopsAt-append need deleted f less stops j below = elim (Bool-cases (ltb j (length deleted))) [
    | inl inside ↦
        subst (λ (t : List RecordingFile). total_size t < need)
          (sym (take-append_le j deleted (f ∷ []) (ground arith))) (stops j (ground arith))
    | inr at_end ↦
        (let same : j ≡ length deleted = ground (arith, length-append deleted (f ∷ [])) in
          subst (λ (t : List RecordingFile). total_size t < need)
            (sym
              (take-append_le j deleted (f ∷ []) (omega arith) ∙ take_all j deleted (omega arith)))
            less)
  ]

  delete_loop-Loops :
      (need : ℕ) (files : List RecordingFile) (r : Freed)
      → r.freed ≡ total_size r.deleted
      → StopsAt need r.deleted
      → Loops need files r (delete_loop writing removes need files r)
  unfolding delete_loop
  delete_loop-Loops need [] r sum stops = (0, sym (append-nil r.deleted), sum, inr refl, stops)
  delete_loop-Loops need (f ∷ files) r sum stops =
      let taken : Freed = record { freed = r.freed + f.size; deleted = r.deleted ++ (f ∷ []) } in
      let loop = delete_loop writing removes need files in
      if_cases (Loops need (f ∷ files) r) (leb need r.freed)
        (λ enough. (0, sym (append-nil r.deleted), sum, inl (leb→le need r.freed enough), stops))
        (λ more.
          if_cases (λ (n : Freed). Loops need (f ∷ files) r (loop n)) (writing f || not (removes f))
            (λ kept.
              Loops-skip need f files r (loop r) kept (delete_loop-Loops need files r sum stops))
            (λ gone. Loops-take need f files r taken (loop taken) gone refl (
              delete_loop-Loops need files taken
                (omega (arith, sum, total_size-append r.deleted (f ∷ [])))
                (StopsAt-append need r.deleted f (ground arith) stops))))

  -- `deleteUntil` deletes the files of a first part of the list that can be deleted, in order, and counts
  -- their bytes; it goes through the whole list unless enough is freed, and deletes nothing more then.
  pub delete_until-IsOldestFirst :
      (files : List RecordingFile) (need : ℕ)
      → IsOldestFirst need files (delete_until writing removes files need)
  unfolding delete_until
  delete_until-IsOldestFirst files need =
      delete_loop-Loops need files (record { freed = 0; deleted = [] }) refl
        (λ j below. absurd (omega arith))

-- Enough bytes are free, as far as the disk answers.
abbrev pub HasSpace : ℕ → Option ℕ → Type 0
HasSpace minimum none = Unit {0}
HasSpace minimum (some free) = minimum ≤ free

check_space-HasSpace :
    (minimum : ℕ) (last : Option ℕ)
    → check_space minimum last ≡ enough_space
    → HasSpace minimum last
unfolding check_space is_insufficient_disk_space
check_space-HasSpace minimum none e = tt
check_space-HasSpace minimum (some free) e = ground arith

refused_not_enough : insufficient_disk_space ≡ enough_space → ⊥
refused_not_enough e = cc

after_delete-HasSpace :
    (more : DiskResult) (minimum : ℕ) (last : Option ℕ) (need freed : ℕ)
    (deleted : List RecordingFile)
    → after_delete more minimum last need freed deleted ≡ enough_space
    → HasSpace minimum last ⊎ (more ≡ enough_space)
unfolding after_delete
after_delete-HasSpace more minimum last need freed [] e = cc
after_delete-HasSpace more minimum last need freed (f ∷ deleted) e =
    elim (Bool-cases (leb need freed)) [
      | inl stop ↦ inl (check_space-HasSpace minimum last (sym (if_true _ _ stop) ∙ e))
      | inr on ↦ inr (sym (if_false _ _ on) ∙ e)
    ]

enough_free :
    (free minimum : ℕ) → not (is_insufficient_disk_space free minimum) ≡ true → minimum ≤ free
unfolding is_insufficient_disk_space
enough_free free minimum h = ground arith

run_pass-HasSpace :
    (more : DiskResult) (minimum : ℕ) (may_delete : Bool) (last : Option ℕ) (p : Pass)
    (free : Option ℕ)
    → run_pass more minimum may_delete last p free ≡ enough_space
    → HasSpace minimum free ⊎ (HasSpace minimum last ⊎ (more ≡ enough_space))
unfolding run_pass
run_pass-HasSpace more minimum may_delete last p none e = inl tt
run_pass-HasSpace more minimum may_delete last p (some free) e =
    let r = delete_until p.writing p.removes p.files (minimum - free) in
    elim (Bool-cases (not (is_insufficient_disk_space free minimum))) [
      | inl enough ↦ inl (enough_free free minimum enough)
      | inr short ↦ elim (Bool-cases (not may_delete)) [
        | inl refused ↦
            absurd (refused_not_enough (sym (if_false _ _ short ∙ if_true _ _ refused) ∙ e))
        | inr allowed ↦ inr (
            after_delete-HasSpace more minimum last (minimum - free) r.freed r.deleted
              (sym (if_false _ _ short ∙ if_false _ _ allowed) ∙ e))
      ]
    ]

no_minimum : (minimum : ℕ) (free : Option ℕ) → minimum ≡ 0 → HasSpace minimum free
no_minimum minimum none e = tt
no_minimum minimum (some free) e = omega arith

-- Where `ensureDiskSpace` lets a recording begin, the disk had the minimum free at one of its three tests,
-- or it did not answer.
pub ensure_disk_space-HasSpace :
    (minimum : ℕ) (may_delete : Bool) (first second : Pass) (last : Option ℕ)
    → ensure_disk_space minimum may_delete first second last ≡ enough_space
    → HasSpace minimum first.free ⊎ (HasSpace minimum second.free ⊎ HasSpace minimum last)
unfolding ensure_disk_space run_passes
ensure_disk_space-HasSpace minimum may_delete first second last e =
    elim (Bool-cases (minimum == 0)) [
      | inl zero_minimum ↦ inl (no_minimum minimum first.free ((==_iff minimum 0).0 zero_minimum))
      | inr limited ↦
          elim (run_pass-HasSpace (run_passes minimum may_delete last (second ∷ [])) minimum
            may_delete last first first.free (sym (if_false _ _ limited) ∙ e)) [
              | inl h ↦ inl h
              | inr (inl h) ↦ inr (inr h)
              | inr (inr again) ↦
                  elim (run_pass-HasSpace (check_space minimum last) minimum may_delete last second
                    second.free again) [
                      | inl h ↦ inr (inl h)
                      | inr (inl h) ↦ inr (inr h)
                      | inr (inr checked) ↦ inr (inr (check_space-HasSpace minimum last checked))
                    ]
            ]
    ]
