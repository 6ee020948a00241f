-- ===== src/Ds/Stack.antt =====
-- pkg/ds/stack.go: `Stack`. The head of the list is the end of the slice.
pub mod Laws
use bilirec.Prelude.{ℕ, Bool, true, false, not, Option, none, some, List, [], ◌∷◌, length}

module _ {ℓ} {A : Type ℓ} where
  unfoldable pub push : A → List A → List A
  push v s = v ∷ s

  -- The top, if there is one, and the stack without it.
  unfoldable pub pop : List A → Option A × List A
  pop [] = (none, [])
  pop (v ∷ s) = (some v, s)

  unfoldable pub top : List A → Option A
  top [] = none
  top (v ∷ s) = some v

  unfoldable pub height : List A → ℕ
  height s = length s

  unfoldable pub clear : List A → List A
  clear s = []

  differs : (A → A → Bool) → A → Option A → Bool
  differs eq next none = true
  differs eq next (some prev) = not (eq prev next)

  -- Is `next` another value than the top that it replaces.
  unfoldable pub transition : (A → A → Bool) → A → List A → Bool × List A
  unfolding differs pop push
  transition eq next s = let popped = pop s in (differs eq next popped.0, push next popped.1)
