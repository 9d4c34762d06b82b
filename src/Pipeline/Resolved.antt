-- ===== src/Pipeline/Resolved.antt =====
-- What becomes of the outcomes: one that is set stays as it is, and one that is not set is pending.
use aiokpl.Common.{
  ℕ, zero, suc, ◌≡◌, ◌≢◌, refl, sym, ap, ◌∙◌, ◌⊎◌, inl, inr, true, Bool-cases, Option, none, some,
  List, [], ◌∷◌, ◌++◌, arith, length, get_elem?, get_elem?-append_left,
}
use aiokpl.Common.Eq.{nat_Eq}
use aiokpl.Common.Dict
use aiokpl.Common.Dict.{Dict, get-put, get-remove}
use aiokpl.Attempt.{RecordResult}
use aiokpl.Batch.{BufferedRecord}
use aiokpl.Outcome.{new_outcome, is_set, set_value, set_exception}
use aiokpl.Pipeline.Types.{
  RecordOutcome, Pipeline, change, settle, cancel, settle_found, on_retrier_finish,
}

-- The pending table and the outcomes through a step.
pub data Books (p q : Pipeline) : Type 0 where
  untouched : q.pending ≡ p.pending → q.outcomes ≡ p.outcomes → Books p q
  finished :
      (x : BufferedRecord) (result : RecordResult)
      → q.pending ≡ (on_retrier_finish x result p).pending
      → q.outcomes ≡ (on_retrier_finish x result p).outcomes
      → Books p q
  registered :
      (identity : ℕ)
      → Dict.get identity p.pending ≡ none
      → q.pending ≡ Dict.put identity (length p.outcomes) p.pending
      → q.outcomes ≡ p.outcomes ++ new_outcome ∷ []
      → Books p q
  withdrawn :
      (n : ℕ)
      → q.pending ≡ p.pending
      → q.outcomes ≡ change n (λ o. (cancel o).1) p.outcomes
      → Books p q

-- An outcome is set, or is the pending one of a record.
abbrev pub IsResolved : Pipeline → Type 0
IsResolved p =
    (n : ℕ) (o : RecordOutcome)
    → get_elem? p.outcomes n ≡ some o
    → (o.event ≡ true) ⊎ ((identity : ℕ) × (Dict.get identity p.pending ≡ some n))

-- No outcome that is set changes.
abbrev pub KeepsSet : List RecordOutcome → List RecordOutcome → Type 0
KeepsSet os os' =
    (n : ℕ) (o : RecordOutcome)
    → get_elem? os n ≡ some o
    → o.event ≡ true
    → get_elem? os' n ≡ some o

settle-set : (result : RecordResult) (o : RecordOutcome) → o.event ≡ true → settle result o ≡ o
unfolding settle is_set
settle-set result o e = rw e refl

event-settle : (result : RecordResult) (o : RecordOutcome) → (settle result o).event ≡ true
unfolding settle is_set set_value
event-settle result o = elim (Bool-cases o.event) [ inl e ↦ rw e refl | inr e ↦ rw e refl ]

cancel-set : (o : RecordOutcome) → o.event ≡ true → (cancel o).1 ≡ o
unfolding cancel is_set
cancel-set o e = rw e refl

event-cancel : (o : RecordOutcome) → (cancel o).1.event ≡ true
unfolding cancel is_set set_exception
event-cancel o = elim (Bool-cases o.event) [ inl e ↦ rw e refl | inr e ↦ rw e refl ]

module _ (f : RecordOutcome → RecordOutcome) where
  change-KeepsSet :
      ((o : RecordOutcome) → o.event ≡ true → f o ≡ o)
      → (k : ℕ) (os : List RecordOutcome) → KeepsSet os (change k f os)
  unfolding change
  change-KeepsSet keeps k [] n o e s = cc
  change-KeepsSet keeps zero (x ∷ os) zero o e s =
      let same : x ≡ o = cc e in ap some (keeps x (ap (λ y. y.event) same ∙ s) ∙ same)
  change-KeepsSet keeps zero (x ∷ os) (suc n) o e s = e
  change-KeepsSet keeps (suc k) (x ∷ os) zero o e s = e
  change-KeepsSet keeps (suc k) (x ∷ os) (suc n) o e s = change-KeepsSet keeps k os n o e s

  -- An outcome of the changed list is the changed one, which is set, or stood there before.
  change-cases :
      ((o : RecordOutcome) → (f o).event ≡ true)
      → (k : ℕ) (os : List RecordOutcome) (n : ℕ) (o : RecordOutcome)
      → get_elem? (change k f os) n ≡ some o
      → (o.event ≡ true) ⊎ ((k ≢ n) × (get_elem? os n ≡ some o))
  unfolding change
  change-cases sets k [] n o e = cc
  change-cases sets zero (x ∷ os) zero o e =
      let same : f x ≡ o = cc e in inl (ap (λ y. y.event) (sym same) ∙ sets x)
  change-cases sets zero (x ∷ os) (suc n) o e = inr (omega arith, e)
  change-cases sets (suc k) (x ∷ os) zero o e = inr (omega arith, e)
  change-cases sets (suc k) (x ∷ os) (suc n) o e = elim (change-cases sets k os n o e) [
    | inl s ↦ inl s
    | inr (d, t) ↦ inr (omega (arith, d), t)
  ]

settle_found-KeepsSet :
    (found : Option ℕ) (result : RecordResult) (os : List RecordOutcome)
    → KeepsSet os (settle_found found result os)
unfolding settle_found
settle_found-KeepsSet none result os n o e s = e
settle_found-KeepsSet (some k) result os n o e s =
    change-KeepsSet (settle result) (settle-set result) k os n o e s

-- The last item of a longer list.
snoc-cases :
    (os : List RecordOutcome) (x : RecordOutcome) (n : ℕ) (o : RecordOutcome)
    → get_elem? (os ++ x ∷ []) n ≡ some o
    → (get_elem? os n ≡ some o) ⊎ (n ≡ length os)
snoc-cases [] x zero o e = inr refl
snoc-cases [] x (suc n) o e = cc
snoc-cases (y ∷ os) x zero o e = inl e
snoc-cases (y ∷ os) x (suc n) o e = elim (snoc-cases os x n o e) [
  | inl there ↦ inl there
  | inr last ↦ inr (ap suc last)
]

pub Books-KeepsSet : (p q : Pipeline) → Books p q → KeepsSet p.outcomes q.outcomes
unfolding on_retrier_finish
Books-KeepsSet p q (untouched d e) n o found s = rw e found
Books-KeepsSet p q (finished x result d e) n o found s =
    rw e (settle_found-KeepsSet (Dict.get x.identity p.pending) result p.outcomes n o found s)
Books-KeepsSet p q (registered identity fresh d e) n o found s =
    rw e (get_elem?-append_left p.outcomes (new_outcome ∷ []) n found)
Books-KeepsSet p q (withdrawn k d e) n o found s =
    rw e (change-KeepsSet (λ o. (cancel o).1) cancel-set k p.outcomes n o found s)

-- A record with another identity stays pending.
other_pending :
    (k i n : ℕ) (d : Dict ℕ ℕ)
    → Dict.get i d ≡ some n
    → Dict.get k d ≢ some n
    → Dict.get i (Dict.remove k d) ≡ some n
other_pending k i n d e other = elim (Bool-cases (nat_Eq.equal k i)) [
  | inl same ↦ absurd (other (ap (λ j. Dict.get j d) ((nat_Eq.equal_iff k i).0 same) ∙ e))
  | inr apart ↦ rw (get-remove k i d, apart) e
]

finished-IsResolved :
    (x : BufferedRecord) (result : RecordResult) (p : Pipeline) (found : Option ℕ)
    → Dict.get x.identity p.pending ≡ found
    → IsResolved p
    → (n : ℕ) (o : RecordOutcome) → get_elem? (settle_found found result p.outcomes) n ≡ some o
    → (o.event ≡ true)
      ⊎ ((identity : ℕ) × (Dict.get identity (Dict.remove x.identity p.pending) ≡ some n))
unfolding settle_found
finished-IsResolved x result p none g h n o e = elim (h n o e) [
  | inl s ↦ inl s
  | inr (i, there) ↦ inr (i, other_pending x.identity i n p.pending there (λ same. cc (g, same)))
]
finished-IsResolved x result p (some k) g h n o e =
    elim (change-cases (settle result) (event-settle result) k p.outcomes n o e) [
      | inl s ↦ inl s
      | inr (apart, old) ↦ elim (h n o old) [
        | inl s ↦ inl s
        | inr (i, there) ↦
            inr (i, other_pending x.identity i n p.pending there (λ same. apart (cc (g, same))))
      ]
    ]

registered-IsResolved :
    (identity : ℕ) (p : Pipeline)
    → Dict.get identity p.pending ≡ none
    → IsResolved p
    → (n : ℕ) (o : RecordOutcome) → get_elem? (p.outcomes ++ new_outcome ∷ []) n ≡ some o
    → (o.event ≡ true)
      ⊎ ((i : ℕ) × (Dict.get i (Dict.put identity (length p.outcomes) p.pending) ≡ some n))
registered-IsResolved identity p fresh h n o e = elim (snoc-cases p.outcomes new_outcome n o e) [
  | inl old ↦ elim (h n o old) [
    | inl s ↦ inl s
    | inr (i, there) ↦ elim (Bool-cases (nat_Eq.equal identity i)) [
      | inl same ↦
          absurd (
            cc
              (fresh, there, ap (λ j. Dict.get j p.pending) ((nat_Eq.equal_iff identity i).0 same)))
      | inr apart ↦ inr (i, rw (get-put identity i (length p.outcomes) p.pending, apart) there)
    ]
  ]
  | inr last ↦ inr (
    identity,
    rw
        (
          get-put identity identity (length p.outcomes) p.pending,
          (nat_Eq.equal_iff identity identity).1 refl,
          last,
        )
        refl,
  )
]

pub Books-IsResolved : (p q : Pipeline) → Books p q → IsResolved p → IsResolved q
unfolding on_retrier_finish
Books-IsResolved p q (untouched d e) h n o found = elim (h n o (rw e at found)) [
  | inl s ↦ inl s
  | inr (i, there) ↦ inr (i, rw d there)
]
Books-IsResolved p q (finished x result d e) h n o found =
    elim (finished-IsResolved x result p (Dict.get x.identity p.pending) refl h n o
      (rw e at found)) [ inl s ↦ inl s | inr (i, there) ↦ inr (i, rw d there) ]
Books-IsResolved p q (registered identity fresh d e) h n o found =
    elim (registered-IsResolved identity p fresh h n o (rw e at found)) [
      | inl s ↦ inl s
      | inr (i, there) ↦ inr (i, rw d there)
    ]
Books-IsResolved p q (withdrawn k d e) h n o found =
    elim (change-cases (λ o. (cancel o).1) event-cancel k p.outcomes n o (rw e at found)) [
      | inl s ↦ inl s
      | inr (apart, old) ↦ elim (h n o old) [ inl s ↦ inl s | inr (i, there) ↦ inr (i, rw d there) ]
    ]
