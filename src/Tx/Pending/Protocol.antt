-- ===== src/Tx/Pending/Protocol.antt =====
-- What a transaction guarantees to its caller and to the other transactions.
use bilirec.Prelude.{
  sym, ◌∙◌, ℕ, ◌≡◌, ◌≢◌, ◌⊎◌, refl, inl, inr, true, false, Option, none, some, List, ◌∷◌, ◌==◌,
  if◌then◌else◌, arith, Option-cases, Bool-cases, ap,
}
use bilirec.Ds.Set.{contains, add, remove, contains-remove}
use bilirec.Tx.Pending.{
  PendingTxn, txn_closed, already_reserved, failed, Shared, validated, reserve, abort_with,
  confirm_with, run_with_hooks, finish_with, after_fn, after_reserve,
}

some_error : {A : Type 0} {a : A} → some a ≢ none
some_error e = ground arith

contains-validation :
    (j key : ℕ) (xs : List ℕ)
    → contains key xs ≡ false
    → contains j (remove key (key ∷ xs)).1 ≡ contains j xs
unfolding contains
contains-validation j key xs c = elim (Bool-cases (key == j)) [
  | inl e ↦ let same : key ≡ j = ground arith in ground (arith, contains-remove key j (key ∷ xs))
  | inr n ↦ ground (arith, contains-remove key j (key ∷ xs))
]

module _ {E W : Type 0} (validate : ℕ → List ℕ → W → Option E) where
  reserve_closed :
      (t : PendingTxn) (s : Shared W) (key : ℕ)
      → t.closed ≡ true
      → reserve validate t s key ≡ record { txn = t; shared = s; error = some txn_closed }
  unfolding reserve
  reserve_closed t s key h = rw h refl

  reserve_reserved :
      (t : PendingTxn) (s : Shared W) (key : ℕ)
      → t.closed ≡ false
      → t.reserved ≡ true
      → reserve validate t s key ≡ record { txn = t; shared = s; error = some already_reserved }
  unfolding reserve
  reserve_reserved t s key h g = rw (h, g) refl

  pub reserve_present :
      (t : PendingTxn) (s : Shared W) (key : ℕ)
      → t.closed ≡ false
      → t.reserved ≡ false
      → contains key s.pending ≡ true
      → reserve validate t s key ≡ record { txn = t; shared = s; error = some already_reserved }
  unfolding reserve add
  reserve_present t s key h g c = rw (h, g, c) refl

  pub reserve_fresh :
      (t : PendingTxn) (s : Shared W) (key : ℕ)
      → t.closed ≡ false
      → t.reserved ≡ false
      → contains key s.pending ≡ false
      → reserve validate t s key
        ≡ validated validate t
            (record s { pending = key ∷ s.pending })
            key
            (validate key (key ∷ s.pending) s.world)
  unfolding reserve add
  reserve_fresh t s key h g c = rw (h, g, c) refl

  -- A reservation that succeeds adds exactly its key, which no other transaction holds, to the pending
  -- keys, and marks the transaction; one that fails leaves the transaction and the pending keys as they
  -- were. Neither changes the rest of the world.
  pub reserve_lem :
      (t : PendingTxn) (s : Shared W) (key j : ℕ)
      → ((reserve validate t s key).shared.world ≡ s.world)
        × (((reserve validate t s key).error ≡ none)
              × ((reserve validate t s key).txn
                  ≡ record { reserved = true; closed = false; key = key })
              × (contains key s.pending ≡ false)
              × (contains j (reserve validate t s key).shared.pending
                  ≡ (if key == j then true else contains j s.pending))
            ⊎ ((reserve validate t s key).error ≢ none)
              × ((reserve validate t s key).txn ≡ t)
              × (contains j (reserve validate t s key).shared.pending ≡ contains j s.pending))
  unfolding validated contains
  reserve_lem t s key j = elim (Bool-cases t.closed) [
    | inl h ↦ rw (reserve_closed t s key h) (refl, inr (some_error, refl, refl))
    | inr h ↦ elim (Bool-cases t.reserved) [
      | inl g ↦ rw (reserve_reserved t s key h g) (refl, inr (some_error, refl, refl))
      | inr g ↦ elim (Bool-cases (contains key s.pending)) [
        | inl c ↦ rw (reserve_present t s key h g c) (refl, inr (some_error, refl, refl))
        | inr c ↦ elim (Option-cases (validate key (key ∷ s.pending) s.world)) [
          | inl v ↦
              rw (reserve_fresh t s key h g c, v)
                (
                  refl,
                  inl (
                    refl,
                    rw h refl,
                    c,
                    elim (Bool-cases (key == j)) [ inl e ↦ rw e refl | inr n ↦ rw n refl ],
                  ),
                )
          | inr (e, v) ↦
              rw (reserve_fresh t s key h g c, v)
                (refl, inr (some_error, refl, contains-validation j key s.pending c))
        ]
      ]
    ]
  ]

  reserve_txn :
      (t : PendingTxn) (s : Shared W) (key : ℕ)
      → (reserve validate t s key).error ≡ none
      → (reserve validate t s key).txn ≡ record { reserved = true; closed = false; key = key }
  reserve_txn t s key h = elim (reserve_lem t s key 0).1 [
    | inl (e, r, c, j) ↦ r
    | inr (e, r, j) ↦ absurd (e h)
  ]

  reserve_refused :
      (t : PendingTxn) (s : Shared W) (key : ℕ)
      → (reserve validate t s key).error ≢ none
      → ((reserve validate t s key).txn ≡ t)
        × ((reserve validate t s key).shared.world ≡ s.world)
        × ((j : ℕ) → contains j (reserve validate t s key).shared.pending ≡ contains j s.pending)
  reserve_refused t s key h = (
    elim (reserve_lem t s key 0).1 [ inl (e, r, c, i) ↦ absurd (h e) | inr (e, r, i) ↦ r ],
    (reserve_lem t s key 0).0,
    λ j. elim (reserve_lem t s key j).1 [ inl (e, r, c, i) ↦ absurd (h e) | inr (e, r, i) ↦ i ],
  )

  -- Where a key has just been reserved, an open transaction that tries to reserve it gets
  -- `ErrAlreadyReserved`, whatever the validation says, and is left as it was.
  pub reserve-reserve :
      (t u : PendingTxn) (s : Shared W) (key : ℕ)
      → (reserve validate t s key).error ≡ none
      → u.closed ≡ false
      → ((reserve validate u (reserve validate t s key).shared key).error ≡ some already_reserved)
        × ((reserve validate u (reserve validate t s key).shared key).txn ≡ u)
  reserve-reserve t u s key h o = elim (reserve_lem t s key key).1 [
    | inr (e, r, j) ↦ absurd (e h)
    | inl (e, r, c, j) ↦ elim (Bool-cases u.reserved) [
      | inl g ↦ rw (reserve_reserved u (reserve validate t s key).shared key o g) (refl, refl)
      | inr g ↦
          rw (reserve_present u (reserve validate t s key).shared key o g (ground (arith, j)))
            (refl, refl)
    ]
  ]

-- What `RunWithHooks` returns once the key is reserved.
module _ {E W : Type 0} (validate : ℕ → List ℕ → W → Option E) (fn : Shared W → Shared W × Option E)
    (abort confirm : W → W) where
  after_fn_lem :
      (t : PendingTxn) (key : ℕ) (s : Shared W) (o : Option E)
      → t.reserved ≡ true
      → t.closed ≡ false
      → ((after_fn validate fn abort confirm t key s o).txn.closed ≡ true)
        × (contains key (after_fn validate fn abort confirm t key s o).shared.pending ≡ false)
        × ((o ≡ none)
              × ((after_fn validate fn abort confirm t key s o).error ≡ none)
              × ((after_fn validate fn abort confirm t key s o).shared.world ≡ confirm s.world)
            ⊎ (e : E) × (o ≡ some e)
              × ((after_fn validate fn abort confirm t key s o).error ≡ some (failed e))
              × ((after_fn validate fn abort confirm t key s o).shared.world ≡ abort s.world))
  unfolding after_fn abort_with confirm_with finish_with
  after_fn_lem t key s none r c =
      rw (r, c) (refl, ground (arith, contains-remove key key s.pending), inl (refl, refl, refl))
  after_fn_lem t key s (some e) r c =
      rw (r, c) (refl, ground (arith, contains-remove key key s.pending), inr (e, refl, refl, refl))

  -- `RunWithHooks` on every path. Where the reservation fails, it returns what `Reserve` returned: neither
  -- `fn` nor a hook has run, and the transaction, the pending keys and the rest are as they were. Otherwise
  -- the transaction ends closed and its key is not pending; where `fn` succeeds there is no error and the
  -- confirm hook, and no other, has run after it; where `fn` fails its error is returned, and the abort hook,
  -- and no other, has run after it.
  pub run_with_hooks_lem :
      (t : PendingTxn) (s : Shared W) (key : ℕ)
      → (((reserve validate t s key).error ≢ none)
          × (run_with_hooks validate fn abort confirm t s key ≡ reserve validate t s key)
          × ((run_with_hooks validate fn abort confirm t s key).txn ≡ t)
          × ((run_with_hooks validate fn abort confirm t s key).shared.world ≡ s.world)
          × ((j : ℕ)
              → contains j (run_with_hooks validate fn abort confirm t s key).shared.pending
                ≡ contains j s.pending))
        ⊎ (((reserve validate t s key).error ≡ none)
            × ((run_with_hooks validate fn abort confirm t s key).txn.closed ≡ true)
            × (contains key (run_with_hooks validate fn abort confirm t s key).shared.pending
                ≡ false)
            × ((((fn (reserve validate t s key).shared).1 ≡ none)
                  × ((run_with_hooks validate fn abort confirm t s key).error ≡ none)
                  × ((run_with_hooks validate fn abort confirm t s key).shared.world
                      ≡ confirm (fn (reserve validate t s key).shared).0.world))
                ⊎ ((e : E) × ((fn (reserve validate t s key).shared).1 ≡ some e)
                    × ((run_with_hooks validate fn abort confirm t s key).error ≡ some (failed e))
                    × ((run_with_hooks validate fn abort confirm t s key).shared.world
                        ≡ abort (fn (reserve validate t s key).shared).0.world))))
  unfolding run_with_hooks after_reserve
  run_with_hooks_lem t s key = elim (Option-cases (reserve validate t s key).error) [
    | inr (e, h) ↦
        let (kept, world, keys) = reserve_refused validate t s key (λ g. some_error (sym h ∙ g)) in
        rw h (inl (some_error, refl, kept, world, keys))
    | inl h ↦ rw h (
        inr (
          let (p, q, u) =
            after_fn_lem (reserve validate t s key).txn key (fn (reserve validate t s key).shared).0
              (fn (reserve validate t s key).shared).1
              (ap (λ (x : PendingTxn). x.reserved) (reserve_txn validate t s key h))
              (ap (λ (x : PendingTxn). x.closed) (reserve_txn validate t s key h)) in
          (refl, p, q, u)))
  ]
