-- ===== src/Hls/InitSettle/Count.antt =====
-- How many buffers an operation of the debounce holds, gives back and delivers.
use bilirec.Prelude.{
  ℕ, zero, suc, ◌+◌, ◌≡◌, ◌≢◌, ◌⊎◌, inl, inr, Bool, true, false, none, List, [], ◌∷◌, ◌++◌, ◌==◌,
  ap, if◌then◌else◌, length, take, drop, arith, Bool-cases, ltb,
}
use bilirec.Prelude.Bytes.{bytes_equal}
use bilirec.Hls.InitSettle.{
  Buffer, InitSettle, as_list, cancel, accept_active, accept_idle, accept_map, Runner, Event,
  map_fetched, fragment_fetched, window_ended, map_gone, url_refreshed, is_confirmed, pending_bytes,
}

-- How often a buffer stands in a list.
unfoldable pub count : ℕ → List Buffer → ℕ
count k [] = 0
count k (b ∷ bs) = if b.id == k then 1 + count k bs else count k bs

pub count-append : (k : ℕ) (xs ys : List Buffer) → count k (xs ++ ys) ≡ count k xs + count k ys
unfolding count
count-append k [] ys = omega arith
count-append k (x ∷ xs) ys = ground (arith, count-append k xs ys)

pub count-take :
    (k n : ℕ) (xs : List Buffer) → count k (take n xs) + count k (drop n xs) ≡ count k xs
unfolding count
count-take k zero xs = omega arith
count-take k (suc n) [] = omega arith
count-take k (suc n) (x ∷ xs) = ground (arith, count-take k n xs)

-- There is a pending init exactly while a change is held, and media at most then.
unfoldable pub IsClean : InitSettle → Type 0
IsClean s =
    (s.active ≡ false → s.pending ≡ none)
    × (s.active ≡ false → s.buf ≡ [])
    × (s.active ≡ true → s.pending ≢ none)

unfoldable pub held : ℕ → InitSettle → ℕ
held k s = count k (as_list s.pending) + count k s.buf

-- Where the reader has a buffer: in the debounce, sent, or given back.
unfoldable pub placed : ℕ → Runner → ℕ
placed k r = held k r.settle + (count k r.channel + count k r.released)

unfoldable pub entering : ℕ → Event → ℕ
entering k (map_fetched b sends) = count k (b ∷ [])
entering k (fragment_fetched b sends) = count k (b ∷ [])
entering k (window_ended sends) = 0
entering k map_gone = 0
entering k url_refreshed = 0

pub count-cancel :
    (k : ℕ) (s : InitSettle) → held k ((cancel s).0) + count k (cancel s).1 ≡ held k s
unfolding cancel held as_list count
count-cancel k s = elim (Bool-cases s.active) [
  | inl a ↦ rw (a, count-append k s.buf (as_list s.pending)) (omega arith)
  | inr a ↦ rw a (omega arith)
]

pub accept_map-IsClean : (s : InitSettle) (b : Buffer) → IsClean s → IsClean (accept_map s b).settle
unfolding IsClean accept_map accept_active accept_idle cancel
accept_map-IsClean s b c = ground arith

count-accept_active :
    (k : ℕ) (s : InitSettle) (b : Buffer)
    → s.active ≡ true
    → held k ((accept_active s b).settle)
        + (count k (accept_active s b).released
            + count k (as_list (accept_active s b).result.deliver_now))
      ≡ held k s + count k (b ∷ [])
unfolding accept_active held as_list count
count-accept_active k s b a = elim (Bool-cases (is_confirmed s b)) [
  | inl c ↦ rw (c, count-append k (cancel s).1 (b ∷ [])) (omega (arith, count-cancel k s))
  | inr c ↦ elim (Bool-cases (bytes_equal b.bytes (pending_bytes s.pending))) [
    | inl d ↦ rw (c, d) (omega arith)
    | inr d ↦ rw (c, d, count-append k s.buf (as_list s.pending)) (omega arith)
  ]
]

count-accept_idle :
    (k : ℕ) (s : InitSettle) (b : Buffer)
    → s.pending ≡ none
    → s.buf ≡ []
    → held k ((accept_idle s b).settle)
        + (count k (accept_idle s b).released
            + count k (as_list (accept_idle s b).result.deliver_now))
      ≡ held k s + count k (b ∷ [])
unfolding accept_idle held as_list count
count-accept_idle k s b p q = elim (Bool-cases (is_confirmed s b)) [
  | inl c ↦ rw c (omega arith)
  | inr c ↦ elim (Bool-cases (ltb 0 (length s.confirmed))) [
    | inl d ↦ rw (c, d, p, q) (omega arith)
    | inr d ↦ rw (c, d) (omega arith)
  ]
]

accept_map_cases :
    (s : InitSettle) (b : Buffer)
    → ((s.active ≡ true) × (accept_map s b ≡ accept_active s b))
      ⊎ ((s.active ≡ false) × (accept_map s b ≡ accept_idle s b))
unfolding accept_map
accept_map_cases s b = elim (Bool-cases s.active) [
  | inl a ↦ inl (a, ap (λ (x : Bool). if x then accept_active s b else accept_idle s b) a)
  | inr a ↦ inr (a, ap (λ (x : Bool). if x then accept_active s b else accept_idle s b) a)
]

pub count-accept_map :
    (k : ℕ) (s : InitSettle) (b : Buffer)
    → IsClean s
    → held k ((accept_map s b).settle)
        + (count k (accept_map s b).released
            + count k (as_list (accept_map s b).result.deliver_now))
      ≡ held k s + count k (b ∷ [])
unfolding IsClean
count-accept_map k s b c = elim (accept_map_cases s b) [
  | inl (a, e) ↦ rw e (count-accept_active k s b a)
  | inr (a, e) ↦ rw e (count-accept_idle k s b (c.0 a) (c.1 a))
]
