-- ===== src/Recorder/Admission/Limit.antt =====
-- The limit on concurrent recordings.
use bilirec.Prelude.{
  ℕ, ◌+◌, ◌≤◌, ◌≡◌, ◌≢◌, refl, sym, ◌∙◌, inl, inr, true, none, some, List, ◌∷◌, ◌==◌, length, ltb,
  arith, lookup, Distinct, Bool-cases, Option-cases,
}
use bilirec.Ds.Set
use bilirec.Ds.Set.{
  contains, erase, remove-erase, remove-add, contains-Avoids, contains-add, contains-remove,
  add-Distinct, remove-Distinct,
}
use bilirec.Tx.Pending.{validated, finish_with, abort_with, confirm_with}
use bilirec.Tx.Pending.Protocol.{reserve_present, reserve_fresh}
use bilirec.Recorder.Admission.{
  RecordStatus, recording_now, recovering, RecordError, max_concurrent_recordings_reached, Info,
  Recordings, get_status, status_of, admit, over_limit, validate, stop, store_status, commit_user,
  set_status, Admission, reserved_txn, begin_txn, entered, begin_start, closed_with, Step, reserves,
  aborts, starts, recovers, stops, loses_stream, Reachable, initial, after,
}
use bilirec.Recorder.Admission.Load.{
  has, fresh, has-lookup, fresh_le, fresh-erase, fresh-erase_member, fresh-insert, fresh-remove,
  length-insert_new, length-insert_old, length-remove_old,
}

-- The rooms that are recorded or about to be.
load : Admission → ℕ
load a = length a.shared.world + fresh a.shared.world a.shared.pending

-- The rooms under way are pending, no room is pending twice, and the limit holds for the load.
pub IsAdmitted : ℕ → Admission → Type 0
IsAdmitted max a =
    (load a ≤ max)
    × Distinct a.shared.pending
    × ((j : ℕ) → contains j a.live ≡ true → contains j a.shared.pending ≡ true)

load-commit_user :
    (m : Recordings) (ks : List ℕ) (room session : ℕ)
    → contains room ks ≡ true
    → length (commit_user room session m) + fresh (commit_user room session m) (erase room ks)
      ≤ length m + fresh m ks
unfolding commit_user
load-commit_user m ks room session c = elim (Bool-cases (has room m)) [
  | inl h ↦
      let v : Info = record { session = session; status = recording_now } in
      omega (
        arith,
        length-insert_old room v m h,
        fresh-insert m room v (erase room ks),
        fresh-erase m room ks,
      )
  | inr h ↦
      let v : Info = record { session = session; status = recording_now } in
      omega (
        arith,
        length-insert_new room v m h,
        fresh-insert m room v (erase room ks),
        fresh-erase_member m room ks c h,
      )
]

load-set_status :
    (m : Recordings) (ks : List ℕ) (room session : ℕ) (status : RecordStatus)
    → length (set_status room session status m) + fresh (set_status room session status m) ks
      ≤ length m + fresh m ks
unfolding set_status store_status
load-set_status m ks room session status = elim (Option-cases (lookup room m)) [
  | inl h ↦ rw h (omega arith)
  | inr (i, h) ↦ elim (Bool-cases (i.session == session)) [
    | inl e ↦
        let v : Info = record i { status = status } in
        rw (h, e)
          (omega
            (arith, length-insert_old room v m (has-lookup room m i h), fresh-insert m room v ks))
    | inr e ↦ rw (h, e) (omega arith)
  ]
]

load-stop :
    (m : Recordings) (ks : List ℕ) (room : ℕ)
    → Distinct ks
    → length (stop room m).1 + fresh (stop room m).1 ks ≤ length m + fresh m ks
unfolding stop
load-stop m ks room d = elim (Option-cases (lookup room m)) [
  | inl h ↦ rw (h, stop) (omega arith)
  | inr (i, h) ↦
      rw (h, stop)
        (omega (arith, length-remove_old room m (has-lookup room m i h), fresh-remove m room ks d))
]

admit_over :
    (max room : ℕ) (m : Recordings) (ks : List ℕ)
    → lookup room m ≡ none
    → ltb max (length m + length (room ∷ ks)) ≡ true
    → validate max room (room ∷ ks) m ≡ some max_concurrent_recordings_reached
unfolding validate admit get_status over_limit status_of
admit_over max room m ks h o = rw (h, o) refl

not_none : {e : RecordError} → some e ≢ none
not_none h = ground arith

-- A room that the validation lets in keeps the load within the limit.
admit-load :
    (max room : ℕ) (m : Recordings) (ks : List ℕ)
    → validate max room (room ∷ ks) m ≡ none
    → length m + fresh m ks ≤ max
    → length m + fresh m (room ∷ ks) ≤ max
unfolding validate admit get_status over_limit fresh
admit-load max room m ks v l = elim (Option-cases (lookup room m)) [
  | inr (i, h) ↦ ground (arith, has-lookup room m i h)
  | inl h ↦ elim (Bool-cases (ltb max (length m + length (room ∷ ks)))) [
    | inl o ↦ absurd (not_none (sym (admit_over max room m ks h o) ∙ v))
    | inr o ↦ ground (arith, fresh_le m ks)
  ]
]

-- Entering, leaving and committing a transaction keep the limit.
begin_start-IsAdmitted :
    (max : ℕ) (a : Admission) (room : ℕ)
    → IsAdmitted max a
    → IsAdmitted max (begin_start max a room)
unfolding begin_start entered validated IsAdmitted load Set.contains
begin_start-IsAdmitted max a room (l, d, o) = elim (Bool-cases (contains room a.shared.pending)) [
  | inl c ↦ rw (reserve_present (validate max) begin_txn a.shared room refl refl c) (l, d, o)
  | inr c ↦ elim (Option-cases (validate max room (room ∷ a.shared.pending) a.shared.world)) [
    | inl v ↦
        rw (reserve_fresh (validate max) begin_txn a.shared room refl refl c, v)
          (
            admit-load max room a.shared.world a.shared.pending v l,
            (contains-Avoids room a.shared.pending c, d),
            λ j h. ground (arith, o j),
          )
    | inr (e, v) ↦
        rw
          (
            reserve_fresh (validate max) begin_txn a.shared room refl refl c,
            v,
            remove-add room a.shared.pending c,
          )
          (l, d, o)
  ]
]

closed_with-IsAdmitted :
    (max : ℕ) (a : Admission) (room : ℕ) (hook : Recordings → Recordings)
    → length (hook a.shared.world) + fresh (hook a.shared.world) (erase room a.shared.pending)
      ≤ length a.shared.world + fresh a.shared.world a.shared.pending
    → IsAdmitted max a
    → IsAdmitted max (closed_with a room (confirm_with hook (reserved_txn room) a.shared room))
unfolding closed_with confirm_with finish_with IsAdmitted load
closed_with-IsAdmitted max a room hook f (l, d, o) = (
  rw (remove-erase room a.shared.pending) (omega (arith, f)),
  remove-Distinct room a.shared.pending d,
  λ j h.
      ground (arith, contains-remove room j a.live, contains-remove room j a.shared.pending, o j),
)

pub Step-IsAdmitted :
    (max : ℕ) (a b : Admission) → IsAdmitted max a → Step max a b → IsAdmitted max b
unfolding IsAdmitted load abort_with confirm_with
Step-IsAdmitted max a b (l, d, o) (reserves room) = begin_start-IsAdmitted max a room (l, d, o)
Step-IsAdmitted max a b (l, d, o) (aborts room h) =
    closed_with-IsAdmitted max a room (λ w. w)
      (omega (arith, fresh-erase a.shared.world room a.shared.pending)) (l, d, o)
Step-IsAdmitted max a b (l, d, o) (starts room session h) =
    closed_with-IsAdmitted max a room (commit_user room session)
      (load-commit_user a.shared.world a.shared.pending room session (o room h)) (l, d, o)
Step-IsAdmitted max a b (l, d, o) (recovers room session h) =
    closed_with-IsAdmitted max a room (set_status room session recording_now)
      (omega (
        arith,
        load-set_status a.shared.world (erase room a.shared.pending) room session recording_now,
        fresh-erase a.shared.world room a.shared.pending,
      ))
      (l, d, o)
Step-IsAdmitted max a b (l, d, o) (stops room) =
    (omega (arith, load-stop a.shared.world a.shared.pending room d), d, o)
Step-IsAdmitted max a b (l, d, o) (loses_stream room session) =
    (omega (arith, load-set_status a.shared.world a.shared.pending room session recovering), d, o)

pub Reachable-IsAdmitted : (max : ℕ) (a : Admission) → Reachable max a → IsAdmitted max a
unfolding IsAdmitted load fresh
Reachable-IsAdmitted max a initial = (omega arith, tt, λ j h. h)
Reachable-IsAdmitted max a (after r s) = Step-IsAdmitted max _ a (Reachable-IsAdmitted max _ r) s

-- However starts, recoveries, stops and lost streams interleave, there are never more recordings than
-- MaxConcurrentRecordings, and the rooms whose transaction is under way are all reserved.
pub recordings_le :
    (max : ℕ) (a : Admission)
    → Reachable max a
    → (length a.shared.world ≤ max)
      × ((j : ℕ) → contains j a.live ≡ true → contains j a.shared.pending ≡ true)
unfolding IsAdmitted load
recordings_le max a r = let (l, d, o) = Reachable-IsAdmitted max a r in (omega (arith, l), o)
