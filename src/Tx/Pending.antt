-- ===== src/Tx/Pending.antt =====
-- pkg/tx/pending.go: `Pending` and `PendingTxn`. The set of pending keys is shared by all transactions
-- of one coordinator; the mutex makes each call atomic. `validateFunc` is a parameter, and so is what
-- `fn` and the hooks do to the rest of the world.
pub mod Protocol
use bilirec.Prelude.{
  ℕ, Bool, true, false, ◌||◌, not, Option, none, some, List, [], ◌∷◌, if◌then◌else◌,
}
use bilirec.Ds.Set.{add, remove}

pub record PendingTxn : Type 0 where
  pub reserved : Bool
  pub closed : Bool
  pub key : ℕ

-- `Begin`
abbrev pub begin : PendingTxn
begin = record { reserved = false; closed = false; key = 0 }

-- `ErrTxnClosed`, `ErrAlreadyReserved`, and what the validation or `fn` returns.
pub data TxError (E : Type 0) : Type 0 where
  txn_closed : TxError E
  already_reserved : TxError E
  failed : E → TxError E

-- The pending set, and the rest of the world, which validation reads and hooks change.
pub record Shared (W : Type 0) : Type 0 where
  pub pending : List ℕ
  pub world : W

-- The transaction and the shared state after a call, and the error, if any.
pub record Result (E W : Type 0) : Type 0 where
  pub txn : PendingTxn
  pub shared : Shared W
  pub error : Option (TxError E)

module _ {E W : Type 0} (validate : ℕ → List ℕ → W → Option E) where
  -- The key is in the set while it is validated.
  unfoldable pub validated : PendingTxn → Shared W → ℕ → Option E → Result E W
  validated t s key none = record {
    txn = record t { reserved = true; key = key };
    shared = s;
    error = none;
  }
  validated t s key (some e) = record {
    txn = t;
    shared = record s { pending = (remove key s.pending).1 };
    error = some (failed e);
  }

  -- `Reserve`
  unfoldable pub reserve : PendingTxn → Shared W → ℕ → Result E W
  unfolding validated
  reserve t s key =
      let added = add key s.pending in
      let entered = record s { pending = added.1 } in
      if t.closed
      then record { txn = t; shared = s; error = some txn_closed }
      else if t.reserved
      then record { txn = t; shared = s; error = some already_reserved }
      else if added.0
      then record { txn = t; shared = entered; error = some already_reserved }
      else validated t entered key (validate key entered.pending entered.world)

module _ {W : Type 0} where
  -- `AbortWith` and `ConfirmWith`: the two have the same text, and differ in the hook they are given.
  unfoldable pub finish_with : (W → W) → PendingTxn → Shared W → ℕ → PendingTxn × Shared W
  finish_with hook t s key = if not t.reserved || t.closed then (t, s) else (
    record t { reserved = false; closed = true },
    record { pending = (remove key s.pending).1; world = hook s.world },
  )

  unfoldable pub abort_with : (W → W) → PendingTxn → Shared W → ℕ → PendingTxn × Shared W
  unfolding finish_with
  abort_with hook t s key = finish_with hook t s key

  unfoldable pub confirm_with : (W → W) → PendingTxn → Shared W → ℕ → PendingTxn × Shared W
  unfolding finish_with
  confirm_with hook t s key = finish_with hook t s key

-- `RunWithHooks`. While `fn` runs, other transactions may change the shared state too: `fn` is any
-- function of it. The deferred `AbortWith` runs on both ways out.
module _ {E W : Type 0} (validate : ℕ → List ℕ → W → Option E) (fn : Shared W → Shared W × Option E)
    (abort confirm : W → W) where
  unfoldable after_fn : PendingTxn → ℕ → Shared W → Option E → Result E W
  after_fn t key s (some e) =
      let aborted = abort_with abort t s key in
      record { txn = aborted.0; shared = aborted.1; error = some (failed e) }
  after_fn t key s none =
      let confirmed = confirm_with confirm t s key in
      let aborted = abort_with abort confirmed.0 confirmed.1 key in
      record { txn = aborted.0; shared = aborted.1; error = none }

  unfoldable after_reserve : ℕ → Result E W → Option (TxError E) → Result E W
  unfolding after_fn
  after_reserve key r (some e) = r
  after_reserve key r none = let ran = fn r.shared in after_fn r.txn key ran.0 ran.1

  unfoldable pub run_with_hooks : PendingTxn → Shared W → ℕ → Result E W
  unfolding after_reserve
  run_with_hooks t s key = let r = reserve validate t s key in after_reserve key r r.error

-- `Run`, `RunWithConfirm` and `RunWithAbort` give empty functions for the hooks.
abbrev no_hook : {W : Type 0} → W → W
no_hook w = w

module _ {E W : Type 0} (validate : ℕ → List ℕ → W → Option E)
    (fn : Shared W → Shared W × Option E) where
  pub run : PendingTxn → Shared W → ℕ → Result E W
  run = run_with_hooks validate fn no_hook no_hook

  pub run_with_confirm : (W → W) → PendingTxn → Shared W → ℕ → Result E W
  run_with_confirm confirm = run_with_hooks validate fn no_hook confirm

  pub run_with_abort : (W → W) → PendingTxn → Shared W → ℕ → Result E W
  run_with_abort abort = run_with_hooks validate fn abort no_hook
