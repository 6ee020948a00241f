-- ===== src/Subcheck/Stages.antt =====
-- Where a live session stands, and what one check of the room changes.
use bilirec.Prelude.{
  ℕ, suc, ◌+◌, ◌≤◌, ◌<◌, ◌≡◌, ◌≢◌, ◌⊎◌, inl, inr, refl, sym, ap, ◌∙◌, subst, Bool, true, false,
  ◌&&◌, ◌||◌, not, Option, none, some, List, [], ◌∷◌, ◌++◌, if_cases, if_true, if_false, ltb,
  ltb→lt, arith, Bool-cases,
}
use bilirec.Subcheck.{
  max_auto_start_attempts, SessionKey, same_key, AutoStartRetry, RoomState, StartResult, completes,
  pending, transient, permanent, LiveState, Effect, stream_started, stream_ended, start_called,
  published, Check, has_key, current_retry, is_some, Attempt, attempts_of, schedule_retry,
  after_start, not_tried, wants_record, try_start, publish, wants_notify, is_retry_started,
  store_attempt, act, with_retry, process_live,
}

abbrev pub starts : List Effect → ℕ
starts [] = 0
starts (stream_started ∷ es) = starts es
starts (stream_ended ∷ es) = starts es
starts (start_called ∷ es) = suc (starts es)
starts (published state ∷ es) = starts es

abbrev pub begun : List Effect → ℕ
begun [] = 0
begun (stream_started ∷ es) = suc (begun es)
begun (stream_ended ∷ es) = begun es
begun (start_called ∷ es) = begun es
begun (published state ∷ es) = begun es

same_key_self : (k : SessionKey) → same_key k k ≡ true
unfolding same_key
same_key_self (a, b) = ground arith

-- Where a session stands, from the calls of `Start` and the events so far: it is done, it is new, or it
-- waits for a retry.
abbrev pub StageOf : Bool → Option AutoStartRetry → ℕ → ℕ → Type 0
StageOf true r n m = (n ≤ max_auto_start_attempts) × (m ≤ 1)
StageOf false none n m = (n ≡ 0) × (m ≡ 0)
StageOf false (some r) n m = (n ≡ r.attempts) × (r.attempts < max_auto_start_attempts) × (m ≡ 1)

abbrev pub Stage : SessionKey → RoomState → ℕ → ℕ → Type 0
Stage key s n m = StageOf (has_key s.stored key) (current_retry s.retry key) n m

-- How often `Start` was called before an attempt.
abbrev before : Option AutoStartRetry → ℕ
before none = 0
before (some r) = r.attempts

-- An attempt ends the session, or is counted by the retry that it leaves.
abbrev AttemptOk : SessionKey → Option AutoStartRetry → Attempt → Type 0
AttemptOk key retry a =
    (begun a.called ≡ 0)
    × (((a.mark_now ≡ true) × (starts a.called ≤ 1))
        ⊎ ((a.mark_now ≡ false)
            × (starts a.called ≡ 1)
            × ((r : AutoStartRetry) × (a.next_retry ≡ some r)
                × (r.session_key ≡ key)
                × (r.attempts ≡ suc (before retry))
                × (r.attempts < max_auto_start_attempts))))

attempts_of_lem : (retry : Option AutoStartRetry) → attempts_of retry ≡ suc (before retry)
unfolding attempts_of
attempts_of_lem none = refl
attempts_of_lem (some r) = refl

after_start-AttemptOk :
    (key : SessionKey) (later : ℕ) (retry : Option AutoStartRetry) (result : StartResult)
    → result ≢ pending
    → AttemptOk key retry (after_start key later retry result)
unfolding after_start schedule_retry
after_start-AttemptOk key later retry completes ne = (refl, inl (refl, omega arith))
after_start-AttemptOk key later retry permanent ne = (refl, inl (refl, omega arith))
after_start-AttemptOk key later retry pending ne = absurd (ne refl)
after_start-AttemptOk key later retry transient ne =
    elim (Bool-cases (ltb (attempts_of retry) max_auto_start_attempts)) [
      | inl again ↦ (
        refl,
        inr (
          ap not again,
          refl,
          (
            schedule_retry key later retry,
            if_true _ _ again,
            refl,
            attempts_of_lem retry,
            ltb→lt _ _ again,
          ),
        ),
      )
      | inr over ↦ (refl, inl (ap not over, omega arith))
    ]

try_start-AttemptOk :
    (key : SessionKey) (c : Check) (retry : Option AutoStartRetry)
    → c.result ≢ pending
    → AttemptOk key retry (try_start key c retry)
unfolding try_start not_tried
try_start-AttemptOk key c retry ne =
    if_cases (AttemptOk key retry) (wants_record c.cfg && not c.busy)
      (λ _. after_start-AttemptOk key c.later retry c.result ne)
      (λ _. (refl, inl (refl, omega arith)))

pub publish_counts :
    (c : Check) (retry : Option AutoStartRetry) (state : LiveState) (es : List Effect)
    → (starts (es ++ publish c retry state) ≡ starts es)
      × (begun (es ++ publish c retry state) ≡ begun es)
unfolding publish
publish_counts c retry state [] =
    if_cases (λ (p : List Effect). (starts p ≡ 0) × (begun p ≡ 0)) {x = published state ∷ []}
      {y = []} (wants_notify c.cfg && (not (is_some retry) || is_retry_started state))
      (λ _. (refl, refl)) (λ _. (refl, refl))
publish_counts c retry state (stream_started ∷ es) =
    let h = publish_counts c retry state es in (h.0, ap suc h.1)
publish_counts c retry state (stream_ended ∷ es) = publish_counts c retry state es
publish_counts c retry state (start_called ∷ es) =
    let h = publish_counts c retry state es in (ap suc h.0, h.1)
publish_counts c retry state (published s ∷ es) = publish_counts c retry state es

stored_Stage :
    (key : SessionKey) (n m : ℕ)
    → n ≤ max_auto_start_attempts
    → m ≤ 1
    → Stage key (record { stored = some key; retry = none }) n m
unfolding has_key current_retry
stored_Stage key n m few once =
    subst (λ (b : Bool). StageOf b none n m) (sym (same_key_self key)) (few, once)

retry_Stage :
    (key : SessionKey) (s : RoomState) (r : AutoStartRetry) (n m : ℕ)
    → has_key s.stored key ≡ false
    → r.session_key ≡ key
    → n ≡ r.attempts
    → r.attempts < max_auto_start_attempts
    → m ≡ 1
    → Stage key (record s { retry = some r }) n m
unfolding current_retry
retry_Stage key s r n m fresh same count few once =
    let found : current_retry (some r) key ≡ some r =
      if_true (some r) none (ap (λ (k : SessionKey). same_key k key) same ∙ same_key_self key) in
    subst (λ (b : Bool). StageOf b (current_retry (some r) key) n m) (sym fresh)
      (subst (λ (x : Option AutoStartRetry). StageOf false x n m) (sym found) (count, few, once))

store_attempt-Stage :
    (key : SessionKey) (s : RoomState) (retry : Option AutoStartRetry) (a : Attempt) (m : ℕ)
    → has_key s.stored key ≡ false
    → before retry < max_auto_start_attempts
    → m ≡ 1
    → AttemptOk key retry a
    → Stage key (store_attempt s key a) (before retry + starts a.called) m
unfolding store_attempt
store_attempt-Stage key s retry a m fresh few once (quiet, inl (marked, called)) =
    subst (λ (t : RoomState). Stage key t (before retry + starts a.called) m)
      (sym (if_true _ _ marked))
      (stored_Stage key (before retry + starts a.called) m (omega arith) (omega arith))
store_attempt-Stage key s retry a m fresh few once
      (quiet, inr (kept, called, (r, found, same, count, below))) =
    subst (λ (t : RoomState). Stage key t (before retry + starts a.called) m)
      (sym (
        if_false _ _ kept
        ∙ ap
            (λ (x : Option AutoStartRetry). elim x as (λ _. RoomState) [
              | none ↦ s
              | some q ↦ record s { retry = some q }
            ])
            found))
      (retry_Stage key s r (before retry + starts a.called) m fresh same (omega arith) below once)

-- The counts behind a check, with its effects added.
abbrev pub Counted : SessionKey → ℕ → ℕ → RoomState × List Effect → Type 0
Counted key n m r = Stage key r.0 (n + starts r.1) (m + begun r.1)

pub Stage-same :
    (key : SessionKey) (s : RoomState) {n n' m m' : ℕ}
    → n ≡ n'
    → m ≡ m'
    → Stage key s n m
    → Stage key s n' m'
Stage-same key s {n' = n'} {m = m} p q h =
    subst (λ (x : ℕ). Stage key s n' x) q (subst (λ (x : ℕ). Stage key s x m) p h)

act-Counted :
    (key : SessionKey) (s : RoomState) (c : Check) (retry : Option AutoStartRetry)
    → c.result ≢ pending
    → has_key s.stored key ≡ false
    → before retry < max_auto_start_attempts
    → Counted key (before retry) 1 (act s key c retry (try_start key c retry))
unfolding act
act-Counted key s c retry ne fresh few =
    let a = try_start key c retry in
    let a_ok = try_start-AttemptOk key c retry ne in
    let counts = publish_counts c retry a.state a.called in
    Stage-same key (store_attempt s key a) (ap (λ (k : ℕ). before retry + k) (sym counts.0))
      (omega (arith, counts.1, a_ok.0)) (store_attempt-Stage key s retry a 1 fresh few refl a_ok)

with_retry-Counted :
    (key : SessionKey) (s : RoomState) (c : Check) (retry : Option AutoStartRetry) (n m : ℕ)
    → c.result ≢ pending
    → has_key s.stored key ≡ false
    → Stage key s n m
    → StageOf false retry n m
    → Counted key n m (with_retry s key c retry)
unfolding with_retry
with_retry-Counted key s c none n m ne fresh h stage =
    let acted = act s key c none (try_start key c none) in
    Stage-same key acted.0 (omega (arith, stage.0)) (omega (arith, stage.1))
      (act-Counted key s c none ne fresh (omega arith))
with_retry-Counted key s c (some r) n m ne fresh h stage =
    if_cases (Counted key n m) (ltb c.now r.due_at)
      (λ _. Stage-same key s (omega arith) (omega arith) h)
      (λ _.
        let acted = act s key c (some r) (try_start key c (some r)) in
        Stage-same key acted.0 (omega (arith, stage.0)) (omega (arith, stage.2))
          (act-Counted key s c (some r) ne fresh stage.1))

pub process_live-Counted :
    (key : SessionKey) (s : RoomState) (c : Check) (n m : ℕ)
    → c.result ≢ pending
    → Stage key s n m
    → Counted key n m (process_live s s (some key) c)
unfolding process_live
process_live-Counted key s c n m ne h =
    if_cases (Counted key n m) (has_key s.stored key)
      (λ _. Stage-same key s (omega arith) (omega arith) h)
      (λ fresh.
        with_retry-Counted key s c (current_retry s.retry key) n m ne fresh h
          (subst (λ (b : Bool). StageOf b (current_retry s.retry key) n m) fresh h))
