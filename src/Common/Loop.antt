-- ===== src/Common/Loop.antt =====
-- `while pos < n` over a buffer, where `pos` only moves forward: the bytes from `pos` on are the
-- suffix that is left, and each round hands back the state and a shorter suffix.
use Prim.Native.Nat.{ℕ, zero, suc, ◌≤◌, ◌<◌}
use mathlib.Core.Path.{◌≡◌, refl, ◌∙◌}
use mathlib.Core.Logic.{◌≢◌, inl, inr}
use mathlib.Core.List.{List, [], ◌∷◌, ◌++◌, foldl}
use native.Mathlib.Omega.{arith}
use aiokpl.Common.Lists.{length, length-append, All, flat_map}
use aiokpl.Common.Result.{Result, ok, err, Result-cases}

module _ {ℓ} {S E B : Type ℓ} (step : S → List B → Result E (S × List B)) (out_of_fuel : E) where
  -- The loop, on fuel: `out_of_fuel` is returned only if a round does not shorten the buffer.
  unfoldable pub loop : ℕ → S → List B → Result E S
  loop fuel s [] = ok s
  loop zero s (b ∷ buf) = err out_of_fuel
  loop (suc fuel) s (b ∷ buf) = elim (step s (b ∷ buf)) [
    | ok (s', rest) ↦ loop fuel s' rest
    | err e ↦ err e
  ]

  pub loop-nil : (fuel : ℕ) (s : S) → loop fuel s [] ≡ ok s
  unfolding loop
  loop-nil zero s = refl
  loop-nil (suc fuel) s = refl

  -- One round on a non-empty buffer.
  pub loop-step :
      (fuel : ℕ) (s t : S) (buf rest : List B)
      → 0 < length buf
      → step s buf ≡ ok (t, rest)
      → loop (suc fuel) s buf ≡ loop fuel t rest
  unfolding loop
  loop-step fuel s t [] rest h e = absurd (omega arith)
  loop-step fuel s t (b ∷ buf) rest h e = rw (e, loop)

  -- With fuel for every byte the loop ends by its test, if each round consumes and none reports it.
  pub loop-ne-out_of_fuel :
      ((s : S) (b : B) (buf : List B) → step s (b ∷ buf) ≢ err out_of_fuel)
      → ((s t : S) (b : B) (buf rest : List B)
          → step s (b ∷ buf) ≡ ok (t, rest)
          → length rest ≤ length buf)
      → (fuel : ℕ) (s : S) (buf : List B) → length buf ≤ fuel
      → loop fuel s buf ≢ err out_of_fuel
  unfolding loop
  loop-ne-out_of_fuel fresh shrink fuel s [] h = rw loop-nil (λ e. cc e)
  loop-ne-out_of_fuel fresh shrink zero s (b ∷ buf) h = absurd (omega arith)
  loop-ne-out_of_fuel fresh shrink (suc fuel) s (b ∷ buf) h =
      elim (Result-cases (step s (b ∷ buf))) [
        | inl ((t, rest), e) ↦
            rw (e, loop)
              (loop-ne-out_of_fuel fresh shrink fuel t rest
                (omega (arith, shrink s t b buf rest e)))
        | inr (x, e) ↦ rw (e, loop) (λ q. fresh s b buf (cc (e, q)))
      ]

  module _ {κ} {X : Type ℓ} (encode : X → List B) (update : S → X → S) (P : X → Type κ) where
    -- If each round takes one encoded item off the front, the loop takes them all, in order.
    pub loop-flat_map :
        ((s : S) (x : X) (rest : List B) → P x → step s (encode x ++ rest) ≡ ok (update s x, rest))
        → ((x : X) → 0 < length (encode x))
        → (xs : List X) (fuel : ℕ) (s : S) → All P xs
        → length (flat_map encode xs) ≤ fuel
        → loop fuel s (flat_map encode xs) ≡ ok (foldl update s xs)
    loop-flat_map one full [] fuel s h le = loop-nil fuel s
    loop-flat_map one full (x ∷ xs) zero s h le =
        absurd (omega (arith, length-append (encode x) (flat_map encode xs), full x))
    loop-flat_map one full (x ∷ xs) (suc fuel) s h le =
        loop-step fuel s (update s x) (encode x ++ flat_map encode xs) (flat_map encode xs)
          (omega (arith, length-append (encode x) (flat_map encode xs), full x))
          (one s x (flat_map encode xs) h.0)
        ∙ loop-flat_map one full xs fuel (update s x) h.1
            (omega (arith, length-append (encode x) (flat_map encode xs), full x))
