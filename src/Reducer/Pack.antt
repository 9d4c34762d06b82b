-- ===== src/Reducer/Pack.antt =====
-- What the packing loop of `_pack_and_split` puts into the closed batch, and what it leaves.
use mathlib.Core.List.{append_assoc}
use aiokpl.Common.{
  ℕ, ◌+◌, ◌≤◌, ◌<◌, ◌≡◌, ap, ◌∙◌, ◌⊎◌, inl, inr, Bool, true, false, ◌||◌, ◌==◌, some, List, [], ◌∷◌,
  ◌++◌, arith, ltb, Bool-cases, length, length-append,
}
use aiokpl.Reducer.Interface.{BatchOps, Lawful, add_each, built, add_each-snoc}
use aiokpl.Reducer.{ReducerConfig, pack}

not_first : (n m : ℕ) → (m == 1) ≡ false → m ≡ n + 1 → 0 < n
not_first n m h e = ground arith

module _ {I B : Type 0} (ops : BatchOps I B) (cfg : ReducerConfig I B) where
  open ops use {items, count, size}
  open cfg use {count_limit, size_limit}

  abbrev over : B → Bool
  over b = ltb count_limit (count b) || ltb size_limit (size b)

  abbrev pub IsOver : B → Type 0
  IsOver b = (count_limit < count b) ⊎ (size_limit < size b)

  abbrev pub IsWithin : B → Type 0
  IsWithin b = (count b ≤ count_limit) × (size b ≤ size_limit)

  -- The next item does not fit: with it the batch is over a limit, or the batch is one item that
  -- is over by itself.
  abbrev pub IsFull : B → List I → Type 0
  IsFull b [] = Unit
  IsFull b (c ∷ rest) = IsOver (built ops (items b ++ c ∷ [])) ⊎ ((length (items b) ≡ 1) × IsOver b)

module _ {I B : Type 0} (ops : BatchOps I B) (cfg : ReducerConfig I B) (laws : Lawful ops) where
  open ops use {empty, items, count, size}
  open cfg use {count_limit, size_limit}

  -- What the loop makes of `xs` that are packed and the candidates `cs`.
  pub record Packed (xs cs : List I) (r : B × List I) : Type 0 where
    pub kept : items r.0 ++ r.1 ≡ xs ++ cs
    pub bounded : IsWithin ops cfg r.0 ⊎ ((length (items r.0) ≡ 1) × IsOver ops cfg r.0)
    pub full : IsFull ops cfg r.0 r.1
    pub moves : 0 < length xs + length cs → 0 < length (items r.0)

  over_cases : (b : B) → over ops cfg b ≡ true → IsOver ops cfg b
  over_cases b h = ground arith

  IsWithin-cases : (b : B) → over ops cfg b ≡ false → IsWithin ops cfg b
  IsWithin-cases b h = ground arith

  pack-more :
      (b : B) (c : I) (cs : List I)
      → over ops cfg (ops.add b c) ≡ false
      → pack ops cfg b (c ∷ cs) ≡ pack ops cfg (ops.add b c) cs
  unfolding pack
  pack-more b c cs e = rw e

  pack-single :
      (b : B) (c : I) (cs : List I)
      → over ops cfg (ops.add b c) ≡ true
      → (count (ops.add b c) == 1) ≡ true
      → pack ops cfg b (c ∷ cs) ≡ (ops.add b c, cs)
  unfolding pack
  pack-single b c cs e f = rw e (rw f)

  pack-undo :
      (b b' : B) (c x : I) (cs : List I)
      → over ops cfg (ops.add b c) ≡ true
      → (count (ops.add b c) == 1) ≡ false
      → ops.remove_last (ops.add b c) ≡ some (x, b')
      → pack ops cfg b (c ∷ cs) ≡ (b', c ∷ cs)
  unfolding pack
  pack-undo b b' c x cs e f g = rw e (rw f (rw g))

  snoc : (xs : List I) (c : I) → built ops (xs ++ c ∷ []) ≡ ops.add (built ops xs) c
  snoc xs c = add_each-snoc ops empty xs c

  count-add : (xs : List I) (c : I) → count (ops.add (built ops xs) c) ≡ length xs + 1
  count-add xs c = rw (← snoc xs c) (laws.count-built (xs ++ c ∷ []) ∙ length-append xs (c ∷ []))

  single-IsFull :
      (b : B) (cs : List I) → length (items b) ≡ 1 → IsOver ops cfg b → IsFull ops cfg b cs
  single-IsFull b [] h k = tt
  single-IsFull b (c ∷ cs) h k = inr (h, k)

  -- One item that is over by itself.
  single-Packed :
      (xs : List I) (c : I) (cs : List I)
      → over ops cfg (ops.add (built ops xs) c) ≡ true
      → (count (ops.add (built ops xs) c) == 1) ≡ true
      → Packed xs (c ∷ cs) (ops.add (built ops xs) c, cs)
  unfolding add_each
  single-Packed (x ∷ xs) c cs e f = absurd (ground (arith, count-add (x ∷ xs) c))
  single-Packed [] c cs e f =
      let only = laws.items-built (c ∷ []) in
      let one : length (items (ops.add empty c)) ≡ 1 = ap (λ (l : List I). length l) only in
      let big = over_cases (ops.add empty c) e in
      record {
        kept = ap (λ l. l ++ cs) only;
        bounded = inr (one, big);
        full = single-IsFull (ops.add empty c) cs one big;
        moves = λ h. omega (arith, one);
      }

  -- The last item is taken out again.
  undo-Packed :
      (xs : List I) (c : I) (cs : List I)
      → IsWithin ops cfg (built ops xs)
      → over ops cfg (ops.add (built ops xs) c) ≡ true
      → (count (ops.add (built ops xs) c) == 1) ≡ false
      → Packed xs (c ∷ cs) (laws.removed xs c, c ∷ cs)
  undo-Packed xs c cs w e f =
      let same = laws.items-removed xs c in
      record {
        kept = ap (λ l. l ++ c ∷ cs) same;
        bounded = inl (
          omega (arith, w.0, laws.count-removed xs c, laws.count-built xs),
          omega (arith, w.1, laws.size-removed xs c),
        );
        full = inl (rw (same, snoc xs c) (over_cases (ops.add (built ops xs) c) e));
        moves = λ h.
            rw same (not_first (length xs) (count (ops.add (built ops xs) c)) f (count-add xs c));
      }

  -- The loop, from a batch within the limits.
  pub pack-Packed :
      (xs cs : List I)
      → IsWithin ops cfg (built ops xs)
      → Packed xs cs (pack ops cfg (built ops xs) cs)
  unfolding pack
  pack-Packed xs [] w = record {
    kept = ap (λ l. l ++ []) (laws.items-built xs);
    bounded = inl w;
    full = tt;
    moves = λ h. rw laws.items-built (omega arith);
  }
  pack-Packed xs (c ∷ cs) w = elim (Bool-cases (over ops cfg (ops.add (built ops xs) c))) [
    | inl e ↦ elim (Bool-cases (count (ops.add (built ops xs) c) == 1)) [
      | inl f ↦ rw (pack-single (built ops xs) c cs e f) (single-Packed xs c cs e f)
      | inr f ↦
          rw (pack-undo (built ops xs) (laws.removed xs c) c c cs e f (laws.remove_last-add xs c))
            (undo-Packed xs c cs w e f)
    ]
    | inr e ↦ rw (pack-more (built ops xs) c cs e) (
        let more =
          pack-Packed (xs ++ c ∷ []) cs
            (rw (snoc xs c) (IsWithin-cases (ops.add (built ops xs) c) e)) in
        let packed : Packed xs (c ∷ cs) (pack ops cfg (built ops (xs ++ c ∷ [])) cs) = record {
          kept = more.kept ∙ append_assoc xs (c ∷ []) cs;
          bounded = more.bounded;
          full = more.full;
          moves = λ h. more.moves (omega (arith, length-append xs (c ∷ [])));
        } in
        rw (snoc xs c) at packed)
  ]
