-- ===== src/RoundRobin/Members.antt =====
-- Joining and leaving.
use bilirec.Prelude.{
  ℕ, zero, suc, ◌+◌, ◌-◌, ◌<◌, ◌≤◌, ◌≡◌, refl, ap, ◌∙◌, inl, inr, Bool, true, false, ◌&&◌, Option,
  none, some, List, [], ◌∷◌, ◌++◌, if◌then◌else◌, if_cases, length, get_elem?, set, take, ltb, leb,
  ◌==◌, arith, length-set, length-append, length-take, get_elem?-set_self, get_elem?-set_ne,
  Bool-cases,
}
use native.Mathlib.Nat.{mod-lt}
use bilirec.RoundRobin.{
  RoundRobin, Participant, register, unregister, index_of, swap_remove, in_range,
}

-- How many participants have an id.
abbrev pub one_if : Bool → ℕ
one_if true = 1
one_if false = 0

abbrev pub count : ℕ → List Participant → ℕ
count k [] = 0
count k (p ∷ ps) = one_if (p.id == k) + count k ps

count-append : (k : ℕ) (ps qs : List Participant) → count k (ps ++ qs) ≡ count k ps + count k qs
count-append k [] qs = omega arith
count-append k (p ∷ ps) qs = omega (arith, count-append k ps qs)

count-set :
    (k : ℕ) (ps : List Participant) (i : ℕ) (p q : Participant)
    → get_elem? ps i ≡ some p
    → count k (set ps i q) + one_if (p.id == k) ≡ count k ps + one_if (q.id == k)
count-set k [] i p q e = cc
count-set k (r ∷ ps) zero p q e = let same : r ≡ p = cc in rw same (omega arith)
count-set k (r ∷ ps) (suc i) p q e = omega (arith, count-set k ps i p q e)

-- The list without its last participant.
count-take :
    (k : ℕ) (ps : List Participant) (n : ℕ) (last : Participant)
    → length ps ≡ suc n
    → get_elem? ps n ≡ some last
    → count k (take n ps) + one_if (last.id == k) ≡ count k ps
count-take k [] n last h e = absurd (omega arith)
count-take k (p ∷ []) zero last h e = let same : p ≡ last = cc in rw same (omega arith)
count-take k (p ∷ q ∷ ps) zero last h e = absurd (omega arith)
count-take k (p ∷ ps) (suc n) last h e = omega (arith, count-take k ps n last (omega arith) e)

last_there :
    (ps : List Participant) (n : ℕ)
    → length ps ≡ suc n
    → (q : Participant) × (get_elem? ps n ≡ some q)
last_there [] n h = absurd (omega arith)
last_there (p ∷ ps) zero h = (p, refl)
last_there (p ∷ ps) (suc n) h = last_there ps n (omega arith)

-- Where the id is not there, or where it is found.
IndexOf : ℕ → List Participant → Option ℕ → Type 0
IndexOf id ps none = count id ps ≡ 0
IndexOf id ps (some i) = (p : Participant) × (get_elem? ps i ≡ some p) × (p.id ≡ id)

IndexOf-later :
    (id : ℕ) (p : Participant) (ps : List Participant) (o : Option ℕ)
    → (p.id == id) ≡ false
    → IndexOf id ps o
    → IndexOf id (p ∷ ps) (elim o [ none ↦ none | some i ↦ some (suc i) ])
unfolding IndexOf
IndexOf-later id p ps none e h = rw e (omega (arith, h))
IndexOf-later id p ps (some i) e h = h

index_of_lem : (id : ℕ) (ps : List Participant) → IndexOf id ps (index_of id ps)
unfolding index_of IndexOf
index_of_lem id [] = refl
index_of_lem id (p ∷ ps) =
    if_cases (IndexOf id (p ∷ ps)) (p.id == id) (λ e. (p, refl, ground arith))
      (λ e. IndexOf-later id p ps _ e (index_of_lem id ps))

get_elem?_lt :
    (ps : List Participant) (j : ℕ) {p : Participant} → get_elem? ps j ≡ some p → j < length ps
get_elem?_lt [] j e = cc
get_elem?_lt (q ∷ ps) zero e = omega arith
get_elem?_lt (q ∷ ps) (suc j) e = omega (arith, get_elem?_lt ps j e)

swap_remove_at :
    (ps : List Participant) (i : ℕ) {last : Participant}
    → get_elem? ps (length ps - 1) ≡ some last
    → swap_remove ps (some i) ≡ take (length ps - 1) (set ps i last)
unfolding swap_remove
swap_remove_at ps i e = rw (swap_remove, e) refl

last_after_set :
    (ps : List Participant) (i n : ℕ) {last : Participant}
    → i < length ps
    → get_elem? ps n ≡ some last
    → get_elem? (set ps i last) n ≡ some last
last_after_set ps i n {last = last} h e = elim (Bool-cases (i == n)) [
  | inl here ↦ let this : i ≡ n = ground arith in rw (← this) (get_elem?-set_self ps i last h)
  | inr there ↦ get_elem?-set_ne ps {i = i} {j = n} last (ground arith) ∙ e
]

-- The last participant moves to the place that is given up.
count-swap_remove :
    (k : ℕ) (ps : List Participant) (i : ℕ) (p last : Participant)
    → get_elem? ps i ≡ some p
    → get_elem? ps (length ps - 1) ≡ some last
    → (count k (swap_remove ps (some i)) + one_if (p.id == k) ≡ count k ps)
      × (length (swap_remove ps (some i)) ≡ length ps - 1)
count-swap_remove k ps i p last e el =
    let inside = get_elem?_lt ps i e in
    let sized : length (set ps i last) ≡ suc (length ps - 1) =
      omega (arith, length-set ps i last) in
    rw (swap_remove_at ps i el) (
      omega (
        arith,
        count-take k (set ps i last) (length ps - 1) last sized (last_after_set ps i _ inside el),
        count-set k ps i p last e,
      ),
      omega (arith, length-take (length ps - 1) (set ps i last), sized),
    )

-- The ids are distinct and were given out, `rr` is a place, and the loop runs while there is a participant.
unfoldable pub IsRegistered : RoundRobin → Type 0
IsRegistered r =
    ((k : ℕ) → count k r.participants ≤ 1)
    × ((k : ℕ) → r.next_id < k → count k r.participants ≡ 0)
    × (r.rr ≤ length r.participants - 1)
    × (r.running ≡ ltb 0 (length r.participants))

pub register_lem :
    (r : RoundRobin) (always : Bool)
    → IsRegistered r
    → IsRegistered (register r always).0
      × ((k : ℕ)
          → count k (register r always).0.participants
            ≡ count k r.participants + one_if ((register r always).1 == k))
      × (count (register r always).1 r.participants ≡ 0)
unfolding IsRegistered register
register_lem r always (once, given, place, runs) =
    let new : List Participant =
      record { id = suc r.next_id; signal = false; always = always } ∷ [] in
    (
      (
        λ k. ground (arith, count-append k r.participants new, once k, given k),
        λ k h. ground (arith, count-append k r.participants new, given k),
        omega (arith, length-append r.participants new),
        ground (arith, length-append r.participants new),
      ),
      λ k. ground (arith, count-append k r.participants new),
      given (suc r.next_id) (omega arith),
    )

place_after : (rr n : ℕ) → rr ≤ suc n - 1 → in_range rr n ≤ n - 1
unfolding in_range
place_after rr n h =
    if_cases (λ (t : ℕ). t ≤ n - 1) (ltb 0 n && leb n rr)
      (λ e. omega (arith, mod-lt rr (some_left e))) (λ e. ground arith)
  where
    some_left : (ltb 0 n && leb n rr) ≡ true → 0 < n
    some_left e = ground arith

-- The state with the participants `rest`, which lack one id at most.
left_with : RoundRobin → List Participant → RoundRobin
left_with r rest = record r {
  participants = rest;
  rr = in_range r.rr (length rest);
  running = if length rest == 0 && r.running then false else r.running;
}

Without : RoundRobin → ℕ → List Participant → Type 0
Without r id rest =
    ((k : ℕ) → count k rest ≡ (if k == id then 0 else count k r.participants))
    × (length rest ≤ length r.participants)
    × (length r.participants ≤ suc (length rest))

left_with-IsRegistered :
    (r : RoundRobin) (id : ℕ) (rest : List Participant)
    → IsRegistered r
    → Without r id rest
    → IsRegistered (left_with r rest)
unfolding IsRegistered Without left_with
left_with-IsRegistered r id rest (once, given, place, runs) (counts, le, ge) = (
  λ k. ground (arith, counts k, once k),
  λ k h. ground (arith, counts k, given k h),
  place_after r.rr (length rest) (omega arith),
  ground (arith, runs),
)

gone :
    (k id id' : ℕ)
    → id' ≡ id
    → (now before : ℕ) → now + one_if (id' == k) ≡ before
    → before ≤ 1
    → now ≡ (if k == id then 0 else before)
gone k id id' same now before sum le = ground (arith, same)

swap_remove-Without :
    (r : RoundRobin) (id : ℕ) (o : Option ℕ)
    → IsRegistered r
    → IndexOf id r.participants o
    → Without r id (swap_remove r.participants o)
unfolding IsRegistered IndexOf Without swap_remove
swap_remove-Without r id none registered absent = (
  λ k.
      if_cases (λ (t : ℕ). count k r.participants ≡ t) (k == id)
        (λ this.
          let here : k ≡ id = ground arith in ap (λ (j : ℕ). count j r.participants) here ∙ absent)
        (λ other. refl),
  omega arith,
  omega arith,
)
swap_remove-Without r id (some i) (once, given, place, runs) (p, e, same) =
    let ps = r.participants in
    let (last, el) = last_there ps (length ps - 1) (omega (arith, get_elem?_lt ps i e)) in
    (
      λ k.
          gone k id (p.id) same (count k (swap_remove ps (some i))) (count k ps)
            (count-swap_remove k ps i p last e el).0 (once k),
      omega (arith, (count-swap_remove id ps i p last e el).1),
      omega (arith, (count-swap_remove id ps i p last e el).1),
    )

-- A participant that leaves is gone and no other one is, and the state stays consistent; an id that is
-- not there changes nobody.
pub unregister_lem :
    (r : RoundRobin) (id : ℕ)
    → IsRegistered r
    → IsRegistered (unregister r id)
      × ((k : ℕ)
          → count k (unregister r id).participants
            ≡ (if k == id then 0 else count k r.participants))
unfolding unregister left_with Without
unregister_lem r id registered =
    let rest = swap_remove-Without r id _ registered (index_of_lem id r.participants) in
    (left_with-IsRegistered r id _ registered rest, rest.0)
