-- ===== src/ShardMap/Predict.antt =====
-- Where `predict` sends a hash key, after a refresh.
use aiokpl.Common.{
  ℕ, ◌≤◌, ◌<◌, ◌≡◌, refl, ap, ◌∙◌, ◌⊎◌, inl, inr, Bool, true, false, Bool-cases, Option, some, List,
  [], ◌∷◌, map, arith, ltb, ◌==◌, if◌then◌else◌, length, get_elem?, All,
}
use aiokpl.Common.Result.{ok}
use aiokpl.ShardMap.Types.{Shard, Snapshot, Answer, ready}
use aiokpl.ShardMap.Bisect.{Ascending, front, bisect_left-front}
use aiokpl.ShardMap.Fetch.{
  Ending, not_after, insert_ending, sort_endings, snapshot_of, fetch_all_pages,
}
use aiokpl.ShardMap.Listed.{
  Listed, entry, put_shards, fetch_all_pages-Listed, IsOrdered, Listed-IsOrdered,
}
use aiokpl.ShardMap.{
  ShardMap, ShardMapConfig, predict, install_snapshot, schedule_cleanup, fetched_round,
  refresh_round,
}

-- One of the members of a list.
abbrev pub In : {A : Type 0} → A → List A → Type 0
In x [] = ⊥
In x (y ∷ ys) = (x ≡ y) ⊎ In x ys

abbrev ends : List Ending → List ℕ
ends es = map (λ p. p.0) es

abbrev ids : List Ending → List ℕ
ids es = map (λ p. p.1) es

insert-Ascending :
    (low : ℕ) (x : Ending) (es : List Ending)
    → low ≤ x.0
    → Ascending low (ends es)
    → Ascending low (ends (insert_ending x es))
unfolding insert_ending
insert-Ascending low x [] h k = (h, tt)
insert-Ascending low x (y ∷ es) h k = elim (Bool-cases (not_after x y)) [
  | inl e ↦ rw (e, insert_ending) (h, (ground arith, k.1))
  | inr e ↦ rw (e, insert_ending) (k.0, insert-Ascending y.0 x es (ground arith) k.1)
]

sort-Ascending : (es : List Ending) → Ascending 0 (ends (sort_endings es))
unfolding sort_endings
sort-Ascending [] = tt
sort-Ascending (x ∷ es) = insert-Ascending 0 x (sort_endings es) (omega arith) (sort-Ascending es)

insert-In : (x y : Ending) (es : List Ending) → (x ≡ y) ⊎ In x es → In x (insert_ending y es)
unfolding insert_ending
insert-In x y [] h = h
insert-In x y (z ∷ es) h = elim (Bool-cases (not_after y z)) [
  | inl e ↦ rw (e, insert_ending) h
  | inr e ↦
      rw (e, insert_ending)
        (elim h [
          | inl same ↦ inr (insert-In x y es (inl same))
          | inr (inl same) ↦ inl same
          | inr (inr later) ↦ inr (insert-In x y es (inr later))
        ])
]

sort-In : (x : Ending) (es : List Ending) → In x es → In x (sort_endings es)
unfolding sort_endings
sort-In x [] h = h
sort-In x (y ∷ es) h =
    insert-In x y (sort_endings es)
      (elim h [ inl same ↦ inl same | inr later ↦ inr (sort-In x es later) ])

In-lower : (low : ℕ) (x : Ending) (es : List Ending) → Ascending low (ends es) → In x es → low ≤ x.0
In-lower low x [] h m = absurd m
In-lower low x (y ∷ es) h (inl same) = omega (arith, h.0, ap (λ (p : Ending). p.0) same)
In-lower low x (y ∷ es) h (inr later) = omega (arith, h.0, In-lower y.0 x es h.1 later)

below_all : (y x : Ending) (es : List Ending) → Ascending y.0 (ends es) → In x (y ∷ es) → y.0 ≤ x.0
below_all y x es h (inl same) = omega (arith, ap (λ (p : Ending). p.0) same)
below_all y x es h (inr later) = In-lower y.0 x es h later

module _ (P : Ending → Type 0) where
  insert-All : (x : Ending) (es : List Ending) → P x → All P es → All P (insert_ending x es)
  unfolding insert_ending
  insert-All x [] h k = (h, tt)
  insert-All x (y ∷ es) h k = elim (Bool-cases (not_after x y)) [
    | inl e ↦ rw (e, insert_ending) (h, k)
    | inr e ↦ rw (e, insert_ending) (k.0, insert-All x es h k.1)
  ]

  sort-All : (es : List Ending) → All P es → All P (sort_endings es)
  unfolding sort_endings
  sort-All [] h = tt
  sort-All (x ∷ es) h = insert-All x (sort_endings es) h.0 (sort-All es h.1)

  -- The entry behind the front: it is there if an entry reaches the key.
  front_entry :
      (es : List Ending) (low k : ℕ) (x : Ending)
      → Ascending low (ends es)
      → All P es
      → In x es
      → k ≤ x.0
      → (p : Ending) × (get_elem? (ids es) (front (ends es) k) ≡ some p.1)
        × (front (ends es) k < length (ends es))
        × (k ≤ p.0)
        × (p.0 ≤ x.0)
        × P p
  front_entry [] low k x h a m le = absurd m
  front_entry (y ∷ es) low k x h a m le = elim (Bool-cases (ltb y.0 k)) [
    | inl e ↦ elim m [
      | inl same ↦ absurd (ground (arith, ap (λ (p : Ending). p.0) same))
      | inr later ↦
          let (p, found, inside, least, most, holds) = front_entry es y.0 k x h.1 a.1 later le in
          (p, rw e found, rw e (omega arith), least, most, holds)
    ]
    | inr e ↦ (y, rw e refl, rw e (omega arith), ground arith, below_all y x es h.1 m, a.0)
  ]

-- No other shard has the key in its range.
abbrev pub Apart : Shard → Shard → Type 0
Apart s t =
    (t.shard_id ≡ s.shard_id)
    ⊎ ((t.ending_hash_key < s.starting_hash_key) ⊎ (s.ending_hash_key < t.starting_hash_key))

abbrev Missed : Shard → Ending → Type 0
Missed s p = (p.1 ≡ s.shard_id) ⊎ ((p.0 < s.starting_hash_key) ⊎ (s.ending_hash_key < p.0))

entries-Missed :
    (s : Shard) (ss : List Shard)
    → All IsOrdered ss
    → All (Apart s) ss
    → All (Missed s) (map entry ss)
entries-Missed s [] h k = tt
entries-Missed s (t ∷ ss) h k = (
  elim k.0 [
    | inl same ↦ inl same
    | inr (inl before) ↦ inr (inl before)
    | inr (inr after) ↦ inr (inr (omega (arith, h.0)))
  ],
  entries-Missed s ss h.1 k.1,
)

entries-In : (s : Shard) (ss : List Shard) → In s ss → In (entry s) (map entry ss)
entries-In s [] m = m
entries-In s (t ∷ ss) (inl same) = inl (ap entry same)
entries-In s (t ∷ ss) (inr later) = inr (entries-In s ss later)

-- What a snapshot of entries gives for a key.
predict_entries :
    (es : List Ending) (x : Ending) (s : Shard) (k : ℕ) (m : ShardMap)
    → In x es
    → All (Missed s) es
    → x.0 ≡ s.ending_hash_key
    → s.starting_hash_key ≤ k
    → k ≤ x.0
    → m.state ≡ ready
    → m.snapshot.endings ≡ ends (sort_endings es)
    → m.snapshot.shard_ids ≡ ids (sort_endings es)
    → predict k m ≡ some s.shard_id
unfolding predict
predict_entries es x s k m within missed end low high e1 e2 e3 =
    let sorted = sort_endings es in
    let (p, found, inside, least, most, holds) =
      front_entry (Missed s) sorted 0 k x (sort-Ascending es) (sort-All (Missed s) es missed)
        (sort-In x es within) high in
    let same : p.1 ≡ s.shard_id = elim holds [
      | inl same ↦ same
      | inr (inl before) ↦ absurd (omega arith)
      | inr (inr after) ↦ absurd (omega (arith, end))
    ] in
    let here : (front (ends sorted) k == length (ends sorted)) ≡ false = ground (arith, inside) in
    rw (e1, e2, e3, bisect_left-front 0 (ends sorted) k (sort-Ascending es), here)
      (found ∙ ap some same)

pub scheduled :
    (m : ShardMap)
    → ((schedule_cleanup m).state ≡ m.state) × ((schedule_cleanup m).snapshot ≡ m.snapshot)
unfolding schedule_cleanup
scheduled m = elim (Bool-cases m.closed) [ inl e ↦ rw e (refl, refl) | inr e ↦ rw e (refl, refl) ]

pub installed :
    (cfg : ShardMapConfig) (now : ℕ) (fetched : Snapshot) (m : ShardMap)
    → ((install_snapshot cfg now fetched m).state ≡ ready)
      × ((install_snapshot cfg now fetched m).snapshot.endings ≡ fetched.endings)
      × ((install_snapshot cfg now fetched m).snapshot.shard_ids ≡ fetched.shard_ids)
unfolding install_snapshot
installed cfg now fetched m =
    let (same_state, same) = scheduled _ in
    (same_state, ap (λ (s : Snapshot). s.endings) same, ap (λ (s : Snapshot). s.shard_ids) same)

pub if_false : {A : Type 0} (b : Bool) (x y : A) → b ≡ false → (if b then x else y) ≡ y
if_false b x y e = rw e refl

pub refresh_round-ok :
    (cfg : ShardMapConfig) (now : ℕ) (answers : List Answer) (fetched : Snapshot) (m : ShardMap)
    → m.closed ≡ false
    → fetch_all_pages answers ≡ ok fetched
    → (refresh_round cfg now answers m).0 ≡ record (install_snapshot cfg now fetched m) {
      refresh_in_flight = false;
      refresh_done = true;
    }
unfolding refresh_round
refresh_round-ok cfg now answers fetched m e f =
    ap (λ (r : ShardMap × Option ℕ). r.0) (if_false m.closed _ _ e)
    ∙ ap (λ r. (fetched_round cfg now m r).0) f

-- After a refresh whose answers list the shards `ss`, a key in the range of one of them is sent to
-- that shard, if the range of every other shard lies before or behind it.
pub predict-refresh_round :
    (cfg : ShardMapConfig) (now : ℕ) (answers : List Answer) (ss : List Shard) (s : Shard) (k : ℕ)
    (m : ShardMap)
    → m.closed ≡ false
    → Listed answers ss
    → In s ss
    → All (Apart s) ss
    → s.starting_hash_key ≤ k
    → k ≤ s.ending_hash_key
    → predict k (refresh_round cfg now answers m).0 ≡ some s.shard_id
predict-refresh_round cfg now answers ss s k m e l within apart low high =
    let snap = snapshot_of (map entry ss, put_shards ss []) in
    let (e1, e2, e3) = installed cfg now snap m in
    rw (refresh_round-ok cfg now answers snap m e (fetch_all_pages-Listed answers ss l)) (
      predict_entries (map entry ss) (entry s) s k
        (record (install_snapshot cfg now snap m) {
          refresh_in_flight = false;
          refresh_done = true;
        })
        (entries-In s ss within) (entries-Missed s ss (Listed-IsOrdered answers ss l) apart) refl
        low high e1 e2 e3)
