-- ===== src/Ds/Stack/Laws.antt =====
-- The replacement of the top.
use bilirec.Prelude.{◌≡◌, ◌↔◌, refl, Bool, true, false, some, List, [], ◌∷◌, arith}
use bilirec.Ds.Stack.{pop, top, transition}

module _ {ℓ} {A : Type ℓ} where
  -- After a transition the new value is on top and all below the old top is kept. It reports no change
  -- exactly if there was a top that is equal to the new value.
  pub transition_lem :
      (eq : A → A → Bool) (next : A) (s : List A)
      → (top (transition eq next s).1 ≡ some next)
        × ((pop (transition eq next s).1).1 ≡ (pop s).1)
        × (((transition eq next s).0 ≡ false) ↔ ((v : A) × (top s ≡ some v) × (eq v next ≡ true)))
  unfolding transition top pop
  transition_lem eq next [] = (refl, refl, ((λ e. cc), (λ (v, e, same). cc)))
  transition_lem eq next (v ∷ s) =
      (refl, refl, ((λ e. (v, refl, ground arith)), (λ (w, e, same). ground arith)))
