-- ===== src/ShardMap/Unique.antt =====
-- The dicts of the shard map hold every key once.
use mathlib.Core.Path.{subst}
use aiokpl.Common.{
  ℕ, ◌+◌, ◌≡◌, refl, ◌∙◌, inl, inr, false, Bool-cases, none, Option-cases, List, [], ◌∷◌, ◌++◌,
  arith, ltb, ◌==◌,
}
use aiokpl.Common.Eq.{nat_Eq}
use aiokpl.Common.Dict
use aiokpl.Common.Dict.{Dict}
use aiokpl.Common.Result.{Result, ok, err, >>=-eq-ok}
use aiokpl.ShardMap.Types.{Shard, Snapshot, RawShard, Answer, raises, page, FetchError}
use aiokpl.ShardMap.Parse.{build_shard}
use aiokpl.ShardMap.Fetch.{Ending, take_page, take_pages, has_token, fetch_all_pages}
use aiokpl.ShardMap.{since, merge_one, merge_previous, without}

-- Every key is there once, as in a dict.
abbrev pub Unique {ℓ} : {V : Type ℓ} → Dict ℕ V → Type ℓ
Unique [] = Unit
Unique ((k, v) ∷ d) = (Dict.get k d ≡ none) × Unique d

Unique-put {ℓ} : {V : Type ℓ} (k : ℕ) (v : V) (d : Dict ℕ V) → Unique d → Unique (Dict.put k v d)
unfolding Dict.put Dict.get
Unique-put k v [] u = (refl, tt)
Unique-put k v ((j, w) ∷ d) u = elim (Bool-cases (j == k)) [
  | inl e ↦ rw e u
  | inr e ↦
      let other : (k == j) ≡ false = ground (arith, e) in
      rw e (Dict.get-put k j v d ∙ rw other u.0, Unique-put k v d u.1)
]

Unique-remove {ℓ} : {V : Type ℓ} (k : ℕ) (d : Dict ℕ V) → Unique d → Unique (Dict.remove k d)
unfolding Dict.remove Dict.get
Unique-remove k [] u = tt
Unique-remove k ((j, w) ∷ d) u = elim (Bool-cases (j == k)) [
  | inl e ↦ rw e (Unique-remove k d u.1)
  | inr e ↦
      let other : (k == j) ≡ false = ground (arith, e) in
      rw e (Dict.get-remove k j d ∙ rw other u.0, Unique-remove k d u.1)
]

pub Unique-without {ℓ} :
    {V : Type ℓ} (ids : List ℕ) (d : Dict ℕ V) → Unique d → Unique (without ids d)
unfolding without
Unique-without [] d u = u
Unique-without (i ∷ ids) d u = Unique-without ids (Dict.remove i d) (Unique-remove i d u)

module _ (ttl now : ℕ) (new_ids : Dict ℕ Shard) where
  merge_one-Unique :
      (j : ℕ) (shard : Shard) (acc : Dict ℕ ℕ × Dict ℕ Shard)
      → Unique acc.1
      → Unique (merge_one ttl now new_ids j shard acc).1
  unfolding merge_one
  merge_one-Unique j shard acc u = elim (Option-cases (Dict.get j new_ids)) [
    | inl e ↦
        rw (merge_one, e)
          (elim (Bool-cases (ltb now (since now (Dict.get j acc.0) + ttl))) [
            | inl alive ↦ rw alive (Unique-put j shard acc.1 u)
            | inr over ↦ rw over u
          ])
    | inr (new, e) ↦ rw (merge_one, e) u
  ]

  pub merge_previous-Unique :
      (previous : Dict ℕ Shard) (acc : Dict ℕ ℕ × Dict ℕ Shard)
      → Unique acc.1
      → Unique (merge_previous ttl now new_ids previous acc).1
  unfolding merge_previous
  merge_previous-Unique [] acc u = u
  merge_previous-Unique ((j, shard) ∷ previous) acc u =
      merge_previous-Unique previous (merge_one ttl now new_ids j shard acc)
        (merge_one-Unique j shard acc u)

take_page-Unique :
    (raws : List RawShard) (acc acc' : List Ending × Dict ℕ Shard)
    → Unique acc.1
    → take_page raws acc ≡ ok acc'
    → Unique acc'.1
unfolding take_page
take_page-Unique [] acc acc' u e =
    subst
      (λ (r : Result FetchError (List Ending × Dict ℕ Shard)). elim r [
        | ok a ↦ Unique a.1
        | err x ↦ Unit
      ])
      e u
take_page-Unique (raw ∷ raws) acc acc' u e =
    let (shard, built, rest) = >>=-eq-ok (build_shard raw) _ e in
    take_page-Unique raws
      (acc.0 ++ (shard.ending_hash_key, shard.shard_id) ∷ [], Dict.put shard.shard_id shard acc.1)
      acc' (Unique-put shard.shard_id shard acc.1 u) rest

take_pages-Unique :
    (answers : List Answer) (acc acc' : List Ending × Dict ℕ Shard)
    → Unique acc.1
    → take_pages answers acc ≡ ok acc'
    → Unique acc'.1
unfolding take_pages
take_pages-Unique [] acc acc' u e = absurd (cc e)
take_pages-Unique (raises ∷ answers) acc acc' u e = absurd (cc e)
take_pages-Unique (page raws token ∷ answers) acc acc' u e =
    let (taken, first, rest) = >>=-eq-ok (take_page raws acc) _ e in
    let u' = take_page-Unique raws acc taken u first in
    elim (Bool-cases (has_token token)) [
      | inl more ↦ take_pages-Unique answers taken acc' u' (rw more at rest)
      | inr last ↦ take_page-Unique [] taken acc' u' (rw last at rest)
    ]

pub fetch_all_pages-Unique :
    (answers : List Answer) (snap : Snapshot)
    → fetch_all_pages answers ≡ ok snap
    → Unique snap.shards
unfolding fetch_all_pages
fetch_all_pages-Unique answers snap e =
    let (acc, taken, built) = >>=-eq-ok (take_pages answers ([], [])) _ e in
    subst (λ (r : Result FetchError Snapshot). elim r [ ok s ↦ Unique s.shards | err x ↦ Unit ])
      built (take_pages-Unique answers ([], []) acc tt taken)
