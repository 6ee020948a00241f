-- ===== src/Webhook/Balance.antt =====
-- The flag of a queue and the order of its events, through one move of a thread.
use bilirec.Prelude.{
  ℕ, ◌+◌, ◌≤◌, ◌≡◌, refl, sym, ap, ◌∙◌, Bool, true, false, ◌&&◌, not, none, List, [], ◌∷◌, ◌++◌,
  if◌then◌else◌, length, ◌==◌, ltb, arith, length-append, append_assoc, if_cases, ltb→lt,
}
use bilirec.Webhook.{
  RoomQueue, per_room_queue_cap, Sent, queued, try_send, claim_schedule, release_schedule,
  has_backlog, note_empty, is_empty,
}
use bilirec.Webhook.System.{
  Phase, Cell, Move, claimed, working, starting, delivering, offers, checks, claims, puts, puts_not,
  processes, starts, releases, releasing, gives_up, delivers_body, goes_on, with_queue, offered,
  offer, claim, release, process_open, process, settle, after_delivery,
}

-- Does a thread at this phase own the flag of its queue, and which event has it taken.
abbrev pub owns : Phase → ℕ
owns claimed = 1
owns working = 1
owns (starting e) = 1
owns (delivering e) = 1
owns p = 0

abbrev pub flying : Phase → List ℕ
flying (starting e) = e ∷ []
flying (delivering e) = e ∷ []
flying p = []

abbrev pub owns_all : List Phase → ℕ
owns_all [] = 0
owns_all (p ∷ ps) = owns p + owns_all ps

abbrev pub flying_all : List Phase → List ℕ
flying_all [] = []
flying_all (p ∷ ps) = flying p ++ flying_all ps

abbrev pub bit : Bool → ℕ
bit true = 1
bit false = 0

-- A queue with `n` owners and the events `taken` that are neither in the channel nor over: the flag says
-- whether there is an owner, no event is lost or moved, a closed queue is empty, and the channel is
-- within its capacity.
unfoldable pub Fits : Cell → ℕ → List ℕ → Type 0
Fits c n taken =
    (n ≡ bit c.queue.scheduled)
    × (c.over ++ (taken ++ c.queue.ch) ≡ c.accepted)
    × (c.queue.closed ≡ true → c.queue.ch ≡ [])
    × (length c.queue.ch ≤ 32)

release-Fits : (c : Cell) → Fits c 1 [] → Fits (release c) 0 []
unfolding Fits release with_queue release_schedule
release-Fits c (flag, order, shut, small) = (refl, order, shut, small)

process_open-Fits :
    (c : Cell) (es : List ℕ)
    → c.queue.ch ≡ es
    → c.queue.closed ≡ false
    → Fits c 1 []
    → Fits
        (process_open c es).0
        (0 + owns_all (process_open c es).1)
        (flying_all (process_open c es).1)
unfolding process_open with_queue
process_open-Fits c [] e unclosed fits = release-Fits c fits
process_open-Fits c (body ∷ rest) e unclosed fits =
    unfold Fits in
    let (flag, order, shut, small) = fits in
    (flag, ap (λ (es : List ℕ). c.over ++ es) (sym e) ∙ order, λ h. cc, omega (arith, ap length e))

process-Fits :
    (c : Cell)
    → Fits c 1 []
    → Fits (process c).0 (0 + owns_all (process c).1) (flying_all (process c).1)
unfolding process
process-Fits c fits =
    if_cases (λ (r : Cell × List Phase). Fits r.0 (0 + owns_all r.1) (flying_all r.1))
      c.queue.closed (λ h. release-Fits c fits) (λ h. process_open-Fits c c.queue.ch refl h fits)

-- A move that takes no flag but may set it, next to `n` owners and the events `taken`.
abbrev Steady : Cell → ℕ → List ℕ → Cell × List Phase → Type 0
Steady c n taken r = Fits r.0 (n + (0 + owns_all r.1)) taken × (flying_all r.1 ≡ [])

assoc_last :
    (xs ys zs : List ℕ) (e : ℕ) → (xs ++ (ys ++ zs)) ++ (e ∷ []) ≡ xs ++ (ys ++ (zs ++ (e ∷ [])))
assoc_last xs ys zs e =
    append_assoc xs (ys ++ zs) (e ∷ [])
    ∙ ap (λ (es : List ℕ). xs ++ es) (append_assoc ys zs (e ∷ []))

same_Steady :
    (c : Cell) (n : ℕ) (taken : List ℕ)
    → Fits c n taken
    → Fits c (n + (0 + 0)) taken × (Path (List ℕ) [] [])
unfolding Fits
same_Steady c n taken (flag, order, shut, small) = ((omega (arith, flag), order, shut, small), refl)

offered-Steady :
    (c : Cell) (n : ℕ) (taken : List ℕ) (body attempt : ℕ)
    → Fits c n taken
    → Steady c n taken (offer c body attempt)
unfolding Fits offer try_send offered
offered-Steady c n taken body attempt fits =
    if_cases result c.queue.closed
      (λ h.
        if_cases (λ (ps : List Phase). Steady c n taken (c, ps)) (attempt == 0)
          (λ e. same_Steady c n taken fits) (λ e. same_Steady c n taken fits))
      (λ h.
        if_cases result (ltb (length c.queue.ch) per_room_queue_cap) (λ room. took room h)
          (λ none_left. same_Steady c n taken fits))
  where
    result : RoomQueue × Sent → Type 0
    result t = Steady c n taken (offered c body attempt t)

    took :
        ltb (length c.queue.ch) per_room_queue_cap ≡ true
        → c.queue.closed ≡ false
        → result (record c.queue { ch = c.queue.ch ++ (body ∷ []); empty_since = none }, queued)
    took room h =
        let (flag, order, shut, small) = fits in
        (
          (
            omega (arith, flag),
            sym (assoc_last c.over taken c.queue.ch body)
                ∙ ap (λ (es : List ℕ). es ++ (body ∷ [])) order,
            λ e. cc,
            rw length-append (omega (arith, ltb→lt _ _ room)),
          ),
          refl,
        )

claim-Steady : (c : Cell) (n : ℕ) (taken : List ℕ) → Fits c n taken → Steady c n taken (claim c)
unfolding Fits claim claim_schedule with_queue
claim-Steady c n taken (flag, order, shut, small) =
    if_cases
      (λ (r : RoomQueue × Bool).
        Steady c n taken (with_queue c r.0, if r.1 then claimed ∷ [] else []))
      c.queue.scheduled (λ h. ((omega (arith, flag), order, shut, small), refl))
      (λ h. ((omega (arith, flag, ap bit h), order, shut, small), refl))

after_delivery-Steady :
    (now : ℕ) (c : Cell) (n : ℕ) (taken : List ℕ)
    → Fits c n taken
    → Steady c n taken (after_delivery now c)
unfolding Fits after_delivery with_queue note_empty has_backlog
after_delivery-Steady now c n taken (flag, order, shut, small) =
    if_cases
      (λ (ps : List Phase).
        Steady c n taken (with_queue c (note_empty now c.queue), releasing ∷ ps))
      (has_backlog c.queue) (λ h. kept) (λ h. kept)
  where
    kept : Fits (with_queue c (note_empty now c.queue)) (n + (0 + 0)) taken × (Path (List ℕ) [] [])
    kept =
        if_cases
          (λ (q : RoomQueue). Fits (with_queue c q) (n + (0 + 0)) taken × (Path (List ℕ) [] []))
          (not c.queue.closed && is_empty c.queue.ch)
          (λ h. ((omega (arith, flag), order, shut, small), refl))
          (λ h. ((omega (arith, flag), order, shut, small), refl))

module _ {waiting acquired : ℕ} where
  pub owner_Fits :
      {c : Cell} {p : Phase} {r : Cell × List Phase} {put : Bool} {left : ℕ}
      → Move waiting acquired c p r put left
      → owns p ≡ 1
      → Fits c 1 (flying p)
      → Fits r.0 (bit put + owns_all r.1) (flying_all r.1)
  unfolding Fits release with_queue release_schedule process process_open settle
  owner_Fits (puts h) o fits = fits
  owner_Fits puts_not o (flag, order, shut, small) = (refl, order, shut, small)
  owner_Fits {c = c} processes o fits = process-Fits c fits
  owner_Fits (starts body h) o fits = fits
  owner_Fits {c = c} (gives_up body) o (flag, order, shut, small) =
      (refl, append_assoc c.over (body ∷ []) c.queue.ch ∙ order, shut, small)
  owner_Fits {c = c} (delivers_body body) o (flag, order, shut, small) =
      (refl, append_assoc c.over (body ∷ []) c.queue.ch ∙ order, shut, small)
  owner_Fits m o fits = absurd (omega arith)

  pub other_Fits :
      {c : Cell} {p : Phase} {r : Cell × List Phase} {put : Bool} {left : ℕ} (n : ℕ)
      (taken : List ℕ)
      → Move waiting acquired c p r put left
      → owns p ≡ 0
      → Fits c n taken
      → Fits r.0 (n + (bit put + owns_all r.1)) taken × (flying_all r.1 ≡ [])
  unfolding Fits
  other_Fits {c = c} n taken (offers body attempt) o fits =
      offered-Steady c n taken body attempt fits
  other_Fits {c = c} n taken checks o fits =
      if_cases (λ (ps : List Phase). Steady c n taken (c, ps)) c.queue.closed
        (λ h. same_Steady c n taken fits) (λ h. same_Steady c n taken fits)
  other_Fits {c = c} n taken claims o fits = claim-Steady c n taken fits
  other_Fits {c = c} n taken (goes_on now) o fits = after_delivery-Steady now c n taken fits
  other_Fits {c = c} n taken releases o fits = same_Steady c n taken fits
  other_Fits n taken m o fits = absurd (omega arith)
