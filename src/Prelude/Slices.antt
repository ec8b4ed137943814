-- ===== src/Prelude/Slices.antt =====
-- A list cut into pieces of one size, the last of which may be shorter, as
-- `xs[i : i + step] for i in range(0, len(xs), step)` does.
use Prim.Native.Nat.{ℕ, zero, suc, ◌≤◌, ◌<◌}
use mathlib.Core.Path.{◌≡◌, refl, ap, ◌∙◌}
use mathlib.Core.List.{List, [], ◌∷◌, ◌++◌}
use native.Mathlib.Omega.{arith}
use dial_pass.Prelude.Lists.{length, take, drop, length-take, length-drop, take-append-drop, All}

module _ {ℓ} {A : Type ℓ} where
  -- On fuel, of which each piece takes one.
  unfoldable pub chunks : ℕ → ℕ → List A → List (List A)
  chunks step zero xs = []
  chunks step (suc fuel) [] = []
  chunks step (suc fuel) (x ∷ xs) = take step (x ∷ xs) ∷ chunks step fuel (drop step (x ∷ xs))

  -- The pieces in a row.
  abbrev pub joined : List (List A) → List A
  joined [] = []
  joined (c ∷ cs) = c ++ joined cs

  abbrev pub Fits : ℕ → List A → Type 0
  Fits step c = (0 < length c) × (length c ≤ step)

  -- With as much fuel as the list is long, the pieces are the whole list.
  pub chunks_lem :
      (step fuel : ℕ) (xs : List A)
      → 0 < step
      → length xs ≤ fuel
      → (joined (chunks step fuel xs) ≡ xs) × All (Fits step) (chunks step fuel xs)
  unfolding chunks
  chunks_lem step zero [] pos h = (refl, tt)
  chunks_lem step zero (x ∷ xs) pos h = absurd (omega arith)
  chunks_lem step (suc fuel) [] pos h = (refl, tt)
  chunks_lem step (suc fuel) (x ∷ xs) pos h =
      let (whole, sized) =
        chunks_lem step fuel (drop step (x ∷ xs)) pos (omega (arith, length-drop step (x ∷ xs))) in
      (
        ap (λ r. take step (x ∷ xs) ++ r) whole ∙ take-append-drop step (x ∷ xs),
        (omega (arith, length-take step (x ∷ xs)), sized),
      )
