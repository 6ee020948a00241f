-- ===== src/Tx/Hook.antt =====
-- pkg/tx/hook.go: `Hook` and `HookTxn`. The three functions of the coordinator are parameters: a
-- reservation reads and changes the world or fails, abort and confirm change it.
pub mod Once
use bilirec.Prelude.{ℕ, Bool, true, false, ◌||◌, not, Option, none, some, if◌then◌else◌}
use bilirec.Tx.Pending.{TxError, txn_closed, already_reserved, failed}

pub record HookTxn : Type 0 where
  pub hook_reserved : Bool
  pub hook_closed : Bool

-- `Begin`
abbrev pub begin_hook : HookTxn
begin_hook = record { hook_reserved = false; hook_closed = false }

pub record HookResult (E W : Type 0) : Type 0 where
  pub txn : HookTxn
  pub world : W
  pub error : Option (TxError E)

module _ {E W : Type 0} (reserve_func : ℕ → W → W × Option E)
    (abort_func confirm_func : ℕ → W → W) where
  unfoldable pub hook_reserve_result : HookTxn → W × Option E → HookResult E W
  hook_reserve_result t (w, none) = record {
    txn = record t { hook_reserved = true };
    world = w;
    error = none;
  }
  hook_reserve_result t (w, some e) = record { txn = t; world = w; error = some (failed e) }

  -- `Reserve`
  unfoldable pub hook_reserve : HookTxn → W → ℕ → HookResult E W
  unfolding hook_reserve_result
  hook_reserve t w key =
      if t.hook_closed
      then record { txn = t; world = w; error = some txn_closed }
      else if t.hook_reserved
      then record { txn = t; world = w; error = some already_reserved }
      else hook_reserve_result t (reserve_func key w)

  -- `AbortWith` and `ConfirmWith`
  unfoldable pub hook_abort_with : (W → W) → HookTxn → W → ℕ → HookTxn × W
  hook_abort_with fn t w key =
      if not t.hook_reserved || t.hook_closed
      then (t, w)
      else (record { hook_reserved = false; hook_closed = true }, fn (abort_func key w))

  unfoldable pub hook_confirm_with : (W → W) → HookTxn → W → ℕ → HookTxn × W
  hook_confirm_with fn t w key =
      if not t.hook_reserved || t.hook_closed
      then (t, w)
      else (record { hook_reserved = false; hook_closed = true }, fn (confirm_func key w))

  module _ (fn : W → W × Option E) (abort confirm : W → W) where
    unfoldable pub hook_after_fn : HookTxn → ℕ → W → Option E → HookResult E W
    unfolding hook_abort_with hook_confirm_with
    hook_after_fn t key w (some e) =
        let aborted = hook_abort_with abort t w key in
        record { txn = aborted.0; world = aborted.1; error = some (failed e) }
    hook_after_fn t key w none =
        let confirmed = hook_confirm_with confirm t w key in
        let aborted = hook_abort_with abort confirmed.0 confirmed.1 key in
        record { txn = aborted.0; world = aborted.1; error = none }

    unfoldable pub hook_after_reserve : ℕ → HookResult E W → Option (TxError E) → HookResult E W
    unfolding hook_after_fn
    hook_after_reserve key r (some e) = r
    hook_after_reserve key r none = let ran = fn r.world in hook_after_fn r.txn key ran.0 ran.1

    -- `RunWithHooks`
    unfoldable pub hook_run_with_hooks : HookTxn → W → ℕ → HookResult E W
    unfolding hook_after_reserve hook_reserve
    hook_run_with_hooks t w key = let r = hook_reserve t w key in hook_after_reserve key r r.error
