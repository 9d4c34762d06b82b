-- ===== src/Reducer/Split.antt =====
-- What `_pack_and_split` returns and leaves: a prefix of the items in order of deadline, within
-- the limits, and the rest.
use aiokpl.Common.{
  ℕ, ◌<◌, ◌≡◌, sym, ap, ◌∙◌, ◌⊎◌, inl, inr, List, [], ◌++◌, arith, ltb, Bool-cases, length,
}
use aiokpl.Reducer.Interface.{BatchOps, Lawful, add_each, built}
use aiokpl.Reducer.Sort.{sorted, length-sorted}
use aiokpl.Reducer.Pack.{IsOver, IsWithin, IsFull, pack-Packed}
use aiokpl.Reducer.{ReducerState, ReducerConfig, pack, pack_and_split, cancel_timer, reschedule}

module _ {I B : Type 0} (ops : BatchOps I B) (cfg : ReducerConfig I B) (laws : Lawful ops) where
  open ops use {empty, items, count, size, item_deadline}

  -- The active batch is one to which its items were added in order.
  abbrev pub IsBuilt : ReducerState B → Type 0
  IsBuilt s = s.active ≡ built ops (items s.active)

  pub active-cancel_timer : (s : ReducerState B) → (cancel_timer ops cfg s).active ≡ s.active
  active-cancel_timer s = ground arith

  pub active-reschedule :
      (now : ℕ) (s : ReducerState B) → (reschedule ops cfg now s).active ≡ s.active
  active-reschedule now s = ground arith

  empty-IsWithin : IsWithin ops cfg (built ops [])
  unfolding add_each
  empty-IsWithin = (omega (arith, laws.count-built []), omega (arith, laws.size-empty))

  -- The closed batch `b` and what stays active, `rest`, of the items `xs`.
  pub record Split (xs : List I) (b : B) (rest : List I) : Type 0 where
    pub kept : items b ++ rest ≡ sorted item_deadline xs
    pub bounded : IsWithin ops cfg b ⊎ ((length (items b) ≡ 1) × IsOver ops cfg b)
    pub full : IsFull ops cfg b rest
    pub moves : 0 < length xs → 0 < length (items b)

  -- The packed batch and the remainder of the packing loop.
  abbrev packed_of : ReducerState B → B × List I
  packed_of s = pack ops cfg empty (sorted item_deadline (items s.active))

  closed-pack_and_split :
      (now : ℕ) (s : ReducerState B) → (pack_and_split ops cfg now s).0 ≡ (packed_of s).0
  unfolding pack_and_split
  closed-pack_and_split now s =
      ap (λ b. (pack ops cfg empty (sorted item_deadline (items b))).0) (active-cancel_timer s)

  active-pack_and_split :
      (now : ℕ) (s : ReducerState B)
      → (pack_and_split ops cfg now s).1.active ≡ built ops (packed_of s).1
  unfolding pack_and_split
  active-pack_and_split now s =
      let r = pack ops cfg empty (sorted item_deadline (items (cancel_timer ops cfg s).active)) in
      let s'' = record (cancel_timer ops cfg s) { active = built ops r.1 } in
      let same : built ops r.1 ≡ built ops (packed_of s).1 =
        ap (λ b. built ops (pack ops cfg empty (sorted item_deadline (items b))).1)
          (active-cancel_timer s) in
      elim (Bool-cases (ltb 0 (count s''.active))) [
        | inl e ↦ rw e (active-reschedule now s'' ∙ same)
        | inr e ↦ rw e same
      ]

  Packed→Split : (s : ReducerState B) → Split (items s.active) (packed_of s).0 (packed_of s).1
  unfolding add_each
  Packed→Split s =
      let p = pack-Packed ops cfg laws [] (sorted item_deadline (items s.active)) empty-IsWithin in
      record {
        kept = p.kept;
        bounded = p.bounded;
        full = p.full;
        moves = λ h. p.moves (omega (arith, length-sorted item_deadline (items s.active)));
      }

  -- `_pack_and_split`: the active batch is split, and what stays is built again.
  pub pack_and_split-Split :
      (now : ℕ) (s : ReducerState B)
      → Split
          (items s.active)
          (pack_and_split ops cfg now s).0
          (items (pack_and_split ops cfg now s).1.active)
        × IsBuilt (pack_and_split ops cfg now s).1
  pack_and_split-Split now s =
      let left = active-pack_and_split now s in
      let held = ap items left ∙ laws.items-built (packed_of s).1 in
      (rw (closed-pack_and_split now s, held) (Packed→Split s), left ∙ sym (ap (built ops) held))
