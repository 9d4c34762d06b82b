-- ===== src/TokenBucket/Budget.antt =====
-- Over any run of calls, a stream hands out at most what it held and what grew meanwhile.
use aiokpl.Common.{
  ℕ, suc, ◌+◌, ◌-◌, ◌*◌, ◌≤◌, ◌≡◌, refl, sym, ap, ◌∙◌, inl, inr, Bool, true, false, List, [], ◌∷◌,
  arith, length, Bool-cases,
}
use mathlib.Core.Path.{ap₂, subst}
use aiokpl.Common.Result.{ok, err, Result-cases}
use aiokpl.TokenBucket.{
  Amount, tokens, below, Stream, new_bucket, grow, any_negative, exceeds, check, debit_all,
  try_take,
}
use aiokpl.TokenBucket.Grow.{Paid, Paid-refl, Paid-trans, grow-Paid, debit-Paid}
use aiokpl.TokenBucket.Take.{
  grow_all, affords, check-affords, check-grow_all, take_result, try_take_inv,
}

-- Between `ss` and `ts` each stream handed out the number at its place.
pub data PaidAll : List Stream → List Stream → List ℕ → Type 0 where
  nil : PaidAll [] [] []
  cons :
      {s t : Stream} {n : ℕ} {ss ts : List Stream} {ns : List ℕ}
      → Paid s t n
      → PaidAll ss ts ns
      → PaidAll (s ∷ ss) (t ∷ ts) (n ∷ ns)

abbrev pub zeros : List Stream → List ℕ
zeros [] = []
zeros (s ∷ ss) = 0 ∷ zeros ss

abbrev pub add_all : List ℕ → List ℕ → List ℕ
add_all (n ∷ ns) (m ∷ ms) = (n + m) ∷ add_all ns ms
add_all _ _ = []

abbrev pub value : Amount → ℕ
value (tokens n) = n
value (below n) = 0

abbrev pub values : List Amount → List ℕ
values [] = []
values (a ∷ amounts) = value a ∷ values amounts

PaidAll-refl : (ss : List Stream) → PaidAll ss ss (zeros ss)
PaidAll-refl [] = nil
PaidAll-refl (s ∷ ss) = cons (Paid-refl s) (PaidAll-refl ss)

PaidAll-trans :
    {ss ts us : List Stream} {ns ms : List ℕ}
    → PaidAll ss ts ns
    → PaidAll ts us ms
    → PaidAll ss us (add_all ns ms)
PaidAll-trans nil nil = nil
PaidAll-trans (cons p ps) (cons q qs) = cons (Paid-trans _ _ _ _ _ p q) (PaidAll-trans ps qs)

module _ (clock : ℕ → ℕ) where
  grow_all-PaidAll :
      (reads : ℕ) (ss : List Stream) → PaidAll ss (grow_all clock reads ss) (zeros ss)
  unfolding grow_all
  grow_all-PaidAll reads [] = nil
  grow_all-PaidAll reads (s ∷ ss) =
      cons (grow-Paid (clock reads) s) (grow_all-PaidAll (reads + 1) ss)

  -- The first loop hands out nothing.
  check-PaidAll :
      (reads : ℕ) (amounts : List Amount) (ss : List Stream)
      → PaidAll ss (check clock reads amounts ss).1 (zeros ss)
  unfolding check
  check-PaidAll reads [] ss = PaidAll-refl ss
  check-PaidAll reads (a ∷ amounts) [] = nil
  check-PaidAll reads (a ∷ amounts) (s ∷ ss) =
      elim (Bool-cases (exceeds a (grow (clock reads) s).level)) [
        | inl more ↦ rw (more, check) (cons (grow-Paid (clock reads) s) (PaidAll-refl ss))
        | inr fits ↦
            rw (fits, check)
              (cons (grow-Paid (clock reads) s) (check-PaidAll (reads + 1) amounts ss))
      ]

-- The second loop hands out the amounts, where they fit and none is negative.
debit_all-PaidAll :
    (amounts : List Amount) (ss : List Stream)
    → length amounts ≡ length ss
    → any_negative amounts ≡ false
    → affords amounts ss ≡ true
    → PaidAll ss (debit_all amounts ss) (values amounts)
unfolding debit_all any_negative affords
debit_all-PaidAll [] [] e h k = nil
debit_all-PaidAll [] (s ∷ ss) e h k = absurd (omega arith)
debit_all-PaidAll (a ∷ amounts) [] e h k = absurd (omega arith)
debit_all-PaidAll (tokens n ∷ amounts) (s ∷ ss) e h k =
    cons (debit-Paid n s (ground arith))
      (debit_all-PaidAll amounts ss (omega arith) h (ground arith))
debit_all-PaidAll (below n ∷ amounts) (s ∷ ss) e h k = cc h

add_all-zeros :
    (ss : List Stream) (ns : List ℕ) → length ns ≡ length ss → add_all (zeros ss) ns ≡ ns
add_all-zeros [] [] e = refl
add_all-zeros [] (n ∷ ns) e = absurd (omega arith)
add_all-zeros (s ∷ ss) [] e = absurd (omega arith)
add_all-zeros (s ∷ ss) (n ∷ ns) e = ap₂ ◌∷◌ (omega arith) (add_all-zeros ss ns (omega arith))

length-values : (amounts : List Amount) → length (values amounts) ≡ length amounts
length-values [] = refl
length-values (a ∷ amounts) = ap suc (length-values amounts)

length-grow_all :
    (clock : ℕ → ℕ) (reads : ℕ) (ss : List Stream) → length (grow_all clock reads ss) ≡ length ss
unfolding grow_all
length-grow_all clock reads [] = refl
length-grow_all clock reads (s ∷ ss) = ap suc (length-grow_all clock (reads + 1) ss)

-- What a call hands out.
abbrev pub granted : Bool → List Amount → List Stream → List ℕ
granted true amounts ss = values amounts
granted false amounts ss = zeros ss

module _ (clock : ℕ → ℕ) where
  -- Growth, and the debit when every stream can pay.
  paid_in_full :
      (reads : ℕ) (amounts : List Amount) (ss : List Stream)
      → length amounts ≡ length ss
      → any_negative amounts ≡ false
      → (check clock reads amounts ss).0 ≡ true
      → PaidAll ss (debit_all amounts (check clock reads amounts ss).1) (values amounts)
  paid_in_full reads amounts ss len plain all =
      let grown = grow_all-PaidAll clock reads ss in
      let paid =
        debit_all-PaidAll amounts (grow_all clock reads ss)
          (len ∙ sym (length-grow_all clock reads ss)) plain
          (sym (check-affords clock reads amounts ss len) ∙ all) in
      rw (check-grow_all clock reads amounts ss len all) (
        subst (λ ns. PaidAll ss (debit_all amounts (grow_all clock reads ss)) ns)
          (add_all-zeros ss (values amounts) (length-values amounts ∙ len))
          (PaidAll-trans grown paid))

  take_result-PaidAll :
      (reads : ℕ) (amounts : List Amount) (ss : List Stream)
      → length amounts ≡ length ss
      → any_negative amounts ≡ false
      → PaidAll ss
          (take_result clock amounts (check clock reads amounts ss)).1
          (granted (take_result clock amounts (check clock reads amounts ss)).0 amounts ss)
  take_result-PaidAll reads amounts ss len plain =
      elim (Bool-cases (check clock reads amounts ss).0) [
        | inl all ↦ rw all (paid_in_full reads amounts ss len plain all)
        | inr short ↦ rw short (check-PaidAll clock reads amounts ss)
      ]

  pub try_take-PaidAll :
      (reads : ℕ) (amounts : List Amount) (ss : List Stream) (r : Bool × List Stream × ℕ)
      → try_take clock reads amounts ss ≡ ok r
      → PaidAll ss r.1 (granted r.0 amounts ss)
  try_take-PaidAll reads amounts ss r h =
      let (len, plain, e) = try_take_inv clock reads amounts ss r h in
      subst (λ r. PaidAll ss r.1 (granted r.0 amounts ss)) e
        (take_result-PaidAll reads amounts ss len plain)

  -- A caller that makes one call after another, and adds up what each stream hands out to it.
  unfoldable pub take_each : ℕ → List (List Amount) → List Stream → List ℕ → List Stream × List ℕ
  take_each reads [] ss totals = (ss, totals)
  take_each reads (amounts ∷ rest) ss totals = elim (try_take clock reads amounts ss) [
    | ok (fits, ss', reads') ↦ take_each reads' rest ss' (add_all totals (granted fits amounts ss))
    | err e ↦ take_each reads rest ss totals
  ]

  take_each-PaidAll :
      (reads : ℕ) (requests : List (List Amount)) (start ss : List Stream) (totals : List ℕ)
      → PaidAll start ss totals
      → PaidAll start (take_each reads requests ss totals).0 (take_each reads requests ss totals).1
  unfolding take_each
  take_each-PaidAll reads [] start ss totals h = h
  take_each-PaidAll reads (amounts ∷ rest) start ss totals h =
      elim (Result-cases (try_take clock reads amounts ss)) [
        | inl ((fits, ss', reads'), e) ↦
            rw (e, take_each)
              (take_each-PaidAll reads' rest start ss' _
                (PaidAll-trans h (try_take-PaidAll reads amounts ss (fits, ss', reads') e)))
        | inr (x, e) ↦ rw (e, take_each) (take_each-PaidAll reads rest start ss totals h)
      ]

-- The largest number of tokens that a stream may hand out between `s` and `t`: its burst, and what
-- its rate gives in the time between their last growths.
abbrev pub allowance : Stream → Stream → ℕ
allowance s t = s.max_tokens + s.rate * (t.last - s.last)

abbrev pub AllWithin : List Stream → List Stream → List ℕ → Type 0
AllWithin (s ∷ ss) (t ∷ ts) (n ∷ ns) = (n + t.level ≤ allowance s t) × AllWithin ss ts ns
AllWithin [] [] [] = Unit
AllWithin _ _ _ = ⊥

abbrev pub IsCapped : List Stream → Type 0
IsCapped [] = Unit
IsCapped (s ∷ ss) = (s.level ≤ s.max_tokens) × IsCapped ss

PaidAll→AllWithin :
    {ss ts : List Stream} {ns : List ℕ} → IsCapped ss → PaidAll ss ts ns → AllWithin ss ts ns
PaidAll→AllWithin c nil = tt
PaidAll→AllWithin c (cons {s = s} {t = t} p ps) =
    let e : t.last - s.last ≡ p.elapsed = omega (arith, p.later) in
    (omega (arith, p.within, c.0, ap (λ d. s.rate * d) e), PaidAll→AllWithin c.1 ps)

-- Whatever calls are made, at whatever readings of the clock, also if it goes back: what a stream
-- has handed out, with what it holds in the end, is at most its burst and the growth of its rate
-- from its first to its last growth, if it starts with no more than its burst.
pub take_each-AllWithin :
    (clock : ℕ → ℕ) (reads : ℕ) (requests : List (List Amount)) (ss : List Stream)
    → IsCapped ss
    → AllWithin ss
        (take_each clock reads requests ss (zeros ss)).0
        (take_each clock reads requests ss (zeros ss)).1
take_each-AllWithin clock reads requests ss c =
    PaidAll→AllWithin c (take_each-PaidAll clock reads requests ss ss (zeros ss) (PaidAll-refl ss))

-- A new bucket, full or empty, holds no more than its burst.
pub new_bucket-IsCapped :
    (streams : List (ℕ × ℕ)) (initial_full : Bool) (now : ℕ)
    → IsCapped (new_bucket streams initial_full now)
unfolding new_bucket
new_bucket-IsCapped [] initial_full now = tt
new_bucket-IsCapped ((rate, max_tokens) ∷ streams) true now =
    (omega arith, new_bucket-IsCapped streams true now)
new_bucket-IsCapped ((rate, max_tokens) ∷ streams) false now =
    (omega arith, new_bucket-IsCapped streams false now)
