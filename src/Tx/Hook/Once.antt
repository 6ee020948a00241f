-- ===== src/Tx/Hook/Once.antt =====
-- Which of the coordinator's functions a transaction calls.
use bilirec.Prelude.{ℕ, ◌≡◌, ◌⊎◌, refl, inl, inr, true, false, Option, none, some, Option-cases}
use bilirec.Tx.Pending.{failed}
use bilirec.Tx.Hook.{
  HookTxn, begin_hook, hook_reserve_result, hook_reserve, hook_abort_with, hook_confirm_with,
  hook_after_fn, hook_after_reserve, hook_run_with_hooks,
}

module _ {E W : Type 0} (reserve_func : ℕ → W → W × Option E) (abort_func confirm_func : ℕ → W → W)
    (fn : W → W × Option E) (abort confirm : W → W) where
  hook_after_fn_lem :
      (t : HookTxn) (key : ℕ) (w : W) (o : Option E)
      → t.hook_reserved ≡ true
      → t.hook_closed ≡ false
      → ((hook_after_fn reserve_func abort_func confirm_func fn abort confirm t key w
            o).txn.hook_closed
          ≡ true)
        × (((o ≡ none)
              × ((hook_after_fn reserve_func abort_func confirm_func fn abort confirm t key w
                    o).error
                  ≡ none)
              × ((hook_after_fn reserve_func abort_func confirm_func fn abort confirm t key w
                    o).world
                  ≡ confirm (confirm_func key w)))
            ⊎ ((e : E) × (o ≡ some e)
                × ((hook_after_fn reserve_func abort_func confirm_func fn abort confirm t key w
                      o).error
                    ≡ some (failed e))
                × ((hook_after_fn reserve_func abort_func confirm_func fn abort confirm t key w
                      o).world
                    ≡ abort (abort_func key w))))
  unfolding hook_after_fn hook_abort_with hook_confirm_with
  hook_after_fn_lem t key w none r c = rw (r, c) (refl, inl (refl, refl, refl))
  hook_after_fn_lem t key w (some e) r c = rw (r, c) (refl, inr (e, refl, refl, refl))

  -- A transaction that begins and runs: where the coordinator refuses the key, that is all that happens.
  -- Otherwise the transaction ends closed, and after `fn` exactly one of the two pairs has run: the
  -- coordinator's and the caller's confirmation where `fn` succeeds, their abort where it fails, with its error.
  pub hook_run_with_hooks_lem :
      (w : W) (key : ℕ)
      → ((e : E) × ((reserve_func key w).1 ≡ some e)
          × (hook_run_with_hooks reserve_func abort_func confirm_func fn abort confirm begin_hook w
                key
              ≡ record {
                txn = begin_hook;
                world = (reserve_func key w).0;
                error = some (failed e);
              }))
        ⊎ (((reserve_func key w).1 ≡ none)
            × ((hook_run_with_hooks reserve_func abort_func confirm_func fn abort confirm begin_hook
                  w key).txn.hook_closed
                ≡ true)
            × ((((fn (reserve_func key w).0).1 ≡ none)
                  × ((hook_run_with_hooks reserve_func abort_func confirm_func fn abort confirm
                        begin_hook w key).error
                      ≡ none)
                  × ((hook_run_with_hooks reserve_func abort_func confirm_func fn abort confirm
                        begin_hook w key).world
                      ≡ confirm (confirm_func key (fn (reserve_func key w).0).0)))
                ⊎ ((e : E) × ((fn (reserve_func key w).0).1 ≡ some e)
                    × ((hook_run_with_hooks reserve_func abort_func confirm_func fn abort confirm
                          begin_hook w key).error
                        ≡ some (failed e))
                    × ((hook_run_with_hooks reserve_func abort_func confirm_func fn abort confirm
                          begin_hook w key).world
                        ≡ abort (abort_func key (fn (reserve_func key w).0).0)))))
  unfolding hook_run_with_hooks hook_reserve hook_reserve_result hook_after_reserve
  hook_run_with_hooks_lem w key = elim (Option-cases (reserve_func key w).1) [
    | inr (e, h) ↦ rw h (inl (e, refl, refl))
    | inl h ↦ rw h (
        inr (
          let (c, r) =
            hook_after_fn_lem (record { hook_reserved = true; hook_closed = false }) key
              (fn (reserve_func key w).0).0 (fn (reserve_func key w).0).1 refl refl in
          (refl, c, r)))
  ]
