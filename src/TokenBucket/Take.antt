-- ===== src/TokenBucket/Take.antt =====
-- `try_take` takes from all streams or from none.
use aiokpl.Common.{
  ℕ, not, ◌+◌, ◌≡◌, refl, sym, ap, ◌∙◌, ◌⊎◌, inl, inr, Bool, true, false, ◌&&◌, List, [], ◌∷◌,
  arith, ◌==◌, length, Bool-cases, if◌then◌else◌,
}
use aiokpl.Common.Result.{ok, raise_if, >>=-eq-ok}
use aiokpl.TokenBucket.{
  Amount, Stream, BucketError, wrong_length, negative_amount, grow, any_negative, exceeds, check,
  debit_all, try_take,
}

-- Every stream after growth, each at its own reading of the clock.
unfoldable pub grow_all : (ℕ → ℕ) → ℕ → List Stream → List Stream
grow_all clock reads [] = []
grow_all clock reads (s ∷ ss) = grow (clock reads) s ∷ grow_all clock (reads + 1) ss

-- Every stream has the tokens that are asked of it.
unfoldable pub affords : List Amount → List Stream → Bool
affords (a ∷ amounts) (s ∷ ss) = not (exceeds a s.level) && affords amounts ss
affords amounts ss = true

-- Each stream is as it was, or as growth alone makes it.
abbrev pub OnlyGrown : (ℕ → ℕ) → List Stream → List Stream → Type 0
OnlyGrown clock [] [] = Unit
OnlyGrown clock (s ∷ ss) (t ∷ ts) =
    ((t ≡ s) ⊎ ((k : ℕ) × (t ≡ grow (clock k) s))) × OnlyGrown clock ss ts
OnlyGrown clock _ _ = ⊥

pub OnlyGrown-refl : (clock : ℕ → ℕ) (ss : List Stream) → OnlyGrown clock ss ss
OnlyGrown-refl clock [] = tt
OnlyGrown-refl clock (s ∷ ss) = (inl refl, OnlyGrown-refl clock ss)

lengths_agree :
    (m n : ℕ) {u : Unit {0}} → raise_if {E = BucketError} (not (m == n)) wrong_length ≡ ok u → m ≡ n
lengths_agree m n h = ground arith

none_negative :
    (b : Bool) {u : Unit {0}} → raise_if {E = BucketError} b negative_amount ≡ ok u → b ≡ false
none_negative true h = cc h
none_negative false h = refl

-- What the first loop finds and leaves.
module _ (clock : ℕ → ℕ) where
  pub check-affords :
      (reads : ℕ) (amounts : List Amount) (ss : List Stream)
      → length amounts ≡ length ss
      → (check clock reads amounts ss).0 ≡ affords amounts (grow_all clock reads ss)
  unfolding check affords grow_all
  check-affords reads [] [] e = refl
  check-affords reads [] (s ∷ ss) e = absurd (omega arith)
  check-affords reads (a ∷ amounts) [] e = absurd (omega arith)
  check-affords reads (a ∷ amounts) (s ∷ ss) e =
      elim (Bool-cases (exceeds a (grow (clock reads) s).level)) [
        | inl more ↦ rw (more, check)
        | inr fits ↦ rw (fits, check) (check-affords (reads + 1) amounts ss (omega arith))
      ]

  check-OnlyGrown :
      (reads : ℕ) (amounts : List Amount) (ss : List Stream)
      → OnlyGrown clock ss (check clock reads amounts ss).1
  unfolding check
  check-OnlyGrown reads [] ss = OnlyGrown-refl clock ss
  check-OnlyGrown reads (a ∷ amounts) [] = tt
  check-OnlyGrown reads (a ∷ amounts) (s ∷ ss) =
      elim (Bool-cases (exceeds a (grow (clock reads) s).level)) [
        | inl more ↦ rw (more, check) (inr (reads, refl), OnlyGrown-refl clock ss)
        | inr fits ↦ rw (fits, check) (inr (reads, refl), check-OnlyGrown (reads + 1) amounts ss)
      ]

  -- When all fit, the loop has grown every stream.
  pub check-grow_all :
      (reads : ℕ) (amounts : List Amount) (ss : List Stream)
      → length amounts ≡ length ss
      → (check clock reads amounts ss).0 ≡ true
      → (check clock reads amounts ss).1 ≡ grow_all clock reads ss
  unfolding check grow_all
  check-grow_all reads [] [] e h = refl
  check-grow_all reads [] (s ∷ ss) e h = absurd (omega arith)
  check-grow_all reads (a ∷ amounts) [] e h = absurd (omega arith)
  check-grow_all reads (a ∷ amounts) (s ∷ ss) e h =
      elim (Bool-cases (exceeds a (grow (clock reads) s).level)) [
        | inl more ↦ cc (rw (more, check) at h)
        | inr fits ↦
            rw (fits, check)
              (ap (◌∷◌ (grow (clock reads) s))
                (check-grow_all (reads + 1) amounts ss (omega arith) (rw (fits, check) at h)))
      ]

  -- What `try_take` returns, if it does not raise.
  abbrev pub take_result : List Amount → Bool × List Stream × ℕ → Bool × List Stream × ℕ
  take_result amounts c = if c.0 then (true, debit_all amounts c.1, c.2) else (false, c.1, c.2)

  pub try_take_inv :
      (reads : ℕ) (amounts : List Amount) (ss : List Stream) (r : Bool × List Stream × ℕ)
      → try_take clock reads amounts ss ≡ ok r
      → (length amounts ≡ length ss)
        × (any_negative amounts ≡ false)
        × (take_result amounts (check clock reads amounts ss) ≡ r)
  unfolding try_take
  try_take_inv reads amounts ss r h =
      let (u, p, h1) = >>=-eq-ok (raise_if (not (length amounts == length ss)) wrong_length) _ h in
      let (v, q, h2) = >>=-eq-ok (raise_if (any_negative amounts) negative_amount) _ h1 in
      (lengths_agree _ _ p, none_negative _ q, cc h2)

  -- A call that does not raise finds whether every stream, after growth, has the tokens asked of
  -- it. If so it returns true and debits every grown stream; if not it returns false, and each
  -- stream is as it was or as growth alone makes it.
  pub try_take_atomic :
      (reads : ℕ) (amounts : List Amount) (ss ss' : List Stream) (fits : Bool) (reads' : ℕ)
      → try_take clock reads amounts ss ≡ ok (fits, ss', reads')
      → (fits ≡ affords amounts (grow_all clock reads ss))
        × (((fits ≡ true) × (ss' ≡ debit_all amounts (grow_all clock reads ss)))
            ⊎ ((fits ≡ false) × OnlyGrown clock ss ss'))
  try_take_atomic reads amounts ss ss' fits reads' h =
      let (len, _, e) = try_take_inv reads amounts ss (fits, ss', reads') h in
      let found = check-affords reads amounts ss len in
      elim (Bool-cases (check clock reads amounts ss).0) [
        | inl all ↦
            let e' : (
              true,
              debit_all amounts (check clock reads amounts ss).1,
              (check clock reads amounts ss).2,
            )
                ≡ (fits, ss', reads') =
              rw all at e in
            (
              cc (found, all, ap (λ t. t.0) e'),
              inl (
                sym (ap (λ t. t.0) e'),
                sym (ap (λ t. t.1) e')
                    ∙ ap (debit_all amounts) (check-grow_all reads amounts ss len all),
              ),
            )
        | inr short ↦
            let e' : (false, (check clock reads amounts ss).1, (check clock reads amounts ss).2)
                ≡ (fits, ss', reads') =
              rw short at e in
            (
              cc (found, short, ap (λ t. t.0) e'),
              inr (
                sym (ap (λ t. t.0) e'),
                rw (ap (λ t. t.1) e') at (check-OnlyGrown reads amounts ss),
              ),
            )
      ]
