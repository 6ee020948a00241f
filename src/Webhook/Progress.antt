-- ===== src/Webhook/Progress.antt =====
-- A queue with a backlog that nobody works on gets on by the tick.
use bilirec.Prelude.{
  ℕ, ◌<◌, ◌≡◌, refl, ap, ◌∙◌, subst, Bool, true, false, List, [], ◌∷◌, ◌++◌, if◌then◌else◌, length,
  arith, append-nil, if_false, some, lookup,
}
use bilirec.Webhook.{RoomQueue, max_concurrent_delivers, has_backlog, claim_schedule, is_empty}
use bilirec.Webhook.System.{
  Phase, Cell, RoomWork, Thread, Service, Move, Step, threads_at, moved, spawn, claim, process,
  process_open, with_queue, update_cell, checked, claimed, working, starting, delivering, move,
  take_work, reschedule, checks, claims, puts, processes, starts,
}

-- One state follows from another by steps.
pub data Steps (s : Service) : Service → Type 0 where
  here : Steps s s
  further : {t u : Service} → Steps s t → Step t u → Steps s u

update_cell_self : (cells : ℕ → Cell) (q : ℕ) (c : Cell) → update_cell cells q c q ≡ c
unfolding update_cell
update_cell_self cells q c = ground arith

-- The last thread stands at `p` with the work `w`, whose queue holds `c`.
IsAt : List Thread → List RoomWork → RoomWork → ℕ → Phase → Cell → Service → Type 0
IsAt ts ws w a p c s =
    (s.threads ≡ ts ++ (record { work = w; phase = p } ∷ []))
    × (s.pending ≡ ws)
    × (s.cells w.q ≡ c)
    × (s.acquired ≡ a)

module _ (ts : List Thread) (ws : List RoomWork) (w : RoomWork) {s : Service} where
  -- The last thread moves and goes on at one phase.
  advance :
      {p : Phase} {c : Cell} {a a' : ℕ} (p' : Phase) (c' : Cell) (r : Cell × List Phase)
      → IsAt ts ws w a p c s
      → r ≡ (c', p' ∷ [])
      → Move (length ws) a c p r false a'
      → (t : Service) × Step s t × IsAt ts ws w a' p' c' t
  unfolding IsAt moved threads_at
  advance {p = p} {c = c} {a = a} {a' = a'} p' c' r (et, ep, ec, ea) e m =
      let m' : Move (length s.pending) s.acquired (s.cells w.q) p (c', p' ∷ []) false a' =
        rw (ep, ec, ea)
          (subst (λ (r : Cell × List Phase). Move (length ws) a c p r false a') e m) in
      (
        _,
        move ts [] w p (c', p' ∷ []) false et m',
        (refl, ep, update_cell_self s.cells w.q c', refl),
      )

claimed_cell : Cell → Cell
claimed_cell c = with_queue c (record c.queue { scheduled = true })

claim_free : (c : Cell) → c.queue.scheduled ≡ false → claim c ≡ (claimed_cell c, claimed ∷ [])
unfolding claim claim_schedule claimed_cell
claim_free c h =
    ap (λ (r : RoomQueue × Bool). (with_queue c r.0, if r.1 then claimed ∷ [] else []))
      (if_false (c.queue, false) (record c.queue { scheduled = true }, true) h)

process_body :
    (c : Cell) (body : ℕ) (rest : List ℕ)
    → c.queue.closed ≡ false
    → c.queue.ch ≡ body ∷ rest
    → process c ≡ (with_queue c (record c.queue { ch = rest }), starting body ∷ [])
unfolding process process_open
process_body c body rest h e = if_false _ (process_open c c.queue.ch) h ∙ ap (process_open c) e

-- From the tick to the start of the delivery.
module _ (s : Service) (w : RoomWork) (body : ℕ) (rest : List ℕ)
    (mapped : lookup w.room_id s.rooms ≡ some w.q) (unclosed : (s.cells w.q).queue.closed ≡ false)
    (unscheduled : (s.cells w.q).queue.scheduled ≡ false)
    (backlog : (s.cells w.q).queue.ch ≡ body ∷ rest) (idle : s.pending ≡ [])
    (room : s.acquired < max_concurrent_delivers) where
  abbrev the_cell : Cell
  the_cell = s.cells w.q

  has_backlog_here : has_backlog the_cell.queue ≡ true
  unfolding has_backlog is_empty
  has_backlog_here = rw (unclosed, backlog) refl

  work_waits :
      (t : Service) × Steps s t
      × ((t.threads ≡ s.threads ++ [])
          × (t.pending ≡ w ∷ [])
          × (t.cells w.q ≡ claimed_cell the_cell)
          × (t.acquired ≡ s.acquired))
  unfolding IsAt spawn moved threads_at
  work_waits =
      let first = reschedule w mapped has_backlog_here in
      let (s2, step2, at2) =
        advance s.threads [] w checked the_cell _ (refl, idle, refl, refl)
          (ap (λ (ps : List Phase). (the_cell, ps)) (if_false [] (checked ∷ []) unclosed)) checks in
      let (s3, step3, at3) =
        advance s.threads [] w claimed (claimed_cell the_cell) _ at2
          (claim_free the_cell unscheduled) claims in
      let (et, ep, ec, ea) = at3 in
      let put : Move (length s3.pending) s3.acquired (s3.cells w.q) claimed (s3.cells w.q, []) true
          s3.acquired =
        puts (omega (arith, ap length ep)) in
      (
        _,
        further (further (further (further here first) step2) step3)
            (move s.threads [] w claimed (s3.cells w.q, []) true et put),
        (
          refl,
          ap (λ (ws : List RoomWork). ws ++ (w ∷ [])) ep,
          update_cell_self s3.cells w.q (s3.cells w.q) ∙ ec,
          ea,
        ),
      )

  -- Where a room has a queue with a backlog that is neither closed nor scheduled, `pending` is empty
  -- and a delivery may start, the service can come by steps to the delivery of the oldest event.
  pub reschedule-delivering :
      (t : Service) × Steps s t
      × (t.threads ≡ s.threads ++ (record { work = w; phase = delivering body } ∷ []))
  unfolding IsAt spawn claimed_cell with_queue
  reschedule-delivering =
      let (s4, steps4, (et, ep, ec, ea)) = work_waits in
      let et' = et ∙ append-nil s.threads in
      let (s6, step6, at6) =
        advance s.threads [] w (starting body) _ _
          (
            ap (λ (ts : List Thread). ts ++ (record { work = w; phase = working } ∷ [])) et',
            refl,
            ec,
            ea,
          )
          (process_body (claimed_cell the_cell) body rest unclosed backlog) processes in
      let (s7, step7, (et7, ep7, ec7, ea7)) =
        advance s.threads [] w (delivering body) _ _ at6 refl (starts body room) in
      (s7, further (further (further steps4 (take_work w [] ep)) step6) step7, et7)
