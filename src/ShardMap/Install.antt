-- ===== src/ShardMap/Install.antt =====
-- What `_install_snapshot` and `_cleanup` leave of the shards that are closed.
use mathlib.Core.Path.{subst}
use aiokpl.Common.{
  ℕ, ◌+◌, ◌≡◌, refl, ap, ◌∙◌, inl, inr, false, Bool-cases, Option, none, some, Option-cases, [],
  ◌∷◌, ltb, ◌==◌, if◌then◌else◌,
}
use aiokpl.Common.Eq.{nat_Eq}
use aiokpl.Common.Dict
use aiokpl.Common.Dict.{Dict}
use aiokpl.ShardMap.Types.{Shard, Snapshot}
use aiokpl.ShardMap.Predict.{scheduled}
use aiokpl.ShardMap.Unique.{Unique}
use aiokpl.ShardMap.{
  ShardMap, ShardMapConfig, hashrange, since, merge_one, merge_previous, install_snapshot,
}

-- What a round does to the entries of its own shard, and of another.
module _ (ttl now : ℕ) (new_ids : Dict ℕ Shard) (j : ℕ) (shard : Shard)
    (acc : Dict ℕ ℕ × Dict ℕ Shard) where
  merge_one-new :
      (new : Shard)
      → Dict.get j new_ids ≡ some new
      → merge_one ttl now new_ids j shard acc ≡ (Dict.remove j acc.0, acc.1)
  unfolding merge_one
  merge_one-new new e = rw (merge_one, e) refl

  merge_one-gone :
      Dict.get j new_ids ≡ none
      → merge_one ttl now new_ids j shard acc ≡ (
        Dict.put j (since now (Dict.get j acc.0)) acc.0,
        if ltb now (since now (Dict.get j acc.0) + ttl) then Dict.put j shard acc.1 else acc.1,
      )
  unfolding merge_one
  merge_one-gone e = rw (merge_one, e) refl

  merge_one-own :
      Dict.get j new_ids ≡ none
      → Dict.get j (merge_one ttl now new_ids j shard acc).1
        ≡ (if ltb now (since now (Dict.get j acc.0) + ttl) then some shard else Dict.get j acc.1)
  merge_one-own e =
      rw (merge_one-gone e) (elim (Bool-cases (ltb now (since now (Dict.get j acc.0) + ttl))) [
        | inl alive ↦
            rw alive (Dict.get-put j j shard acc.1 ∙ rw ((nat_Eq.equal_iff j j).1 refl) refl)
        | inr over ↦ rw over refl
      ])

  merge_one-other :
      (sid : ℕ)
      → (j == sid) ≡ false
      → (Dict.get sid (merge_one ttl now new_ids j shard acc).0 ≡ Dict.get sid acc.0)
        × (Dict.get sid (merge_one ttl now new_ids j shard acc).1 ≡ Dict.get sid acc.1)
  merge_one-other sid h = elim (Option-cases (Dict.get j new_ids)) [
    | inl e ↦ rw (merge_one-gone e) (
      Dict.get-put j sid (since now (Dict.get j acc.0)) acc.0 ∙ rw h refl,
      elim (Bool-cases (ltb now (since now (Dict.get j acc.0) + ttl))) [
        | inl alive ↦ rw alive (Dict.get-put j sid shard acc.1 ∙ rw h refl)
        | inr over ↦ rw over refl
      ],
    )
    | inr (new, e) ↦ rw (merge_one-new new e) (Dict.get-remove j sid acc.0 ∙ rw h refl, refl)
  ]

  -- A shard of the new map keeps its place.
  merge_one-kept :
      (sid : ℕ) (new : Shard)
      → Dict.get sid new_ids ≡ some new
      → Dict.get sid (merge_one ttl now new_ids j shard acc).1 ≡ Dict.get sid acc.1
  merge_one-kept sid new e = elim (Bool-cases (j == sid)) [
    | inl same ↦
        let here : Dict.get j new_ids ≡ some new =
          ap (λ i. Dict.get i new_ids) ((nat_Eq.equal_iff j sid).0 same) ∙ e in
        rw (merge_one-new new here) refl
    | inr other ↦ (merge_one-other sid other).1
  ]

-- What the merged shards hold, behind the loop.
abbrev merged_get : ℕ → ℕ → Option ℕ → Option Shard → Option Shard → Option Shard
merged_get ttl now closing none merged = merged
merged_get ttl now closing (some shard) merged =
    if ltb now (since now closing + ttl) then some shard else merged

module _ (ttl now : ℕ) (new_ids : Dict ℕ Shard) where
  merge_previous-kept :
      (sid : ℕ) (new : Shard) (previous : Dict ℕ Shard) (acc : Dict ℕ ℕ × Dict ℕ Shard)
      → Dict.get sid new_ids ≡ some new
      → Dict.get sid (merge_previous ttl now new_ids previous acc).1 ≡ Dict.get sid acc.1
  unfolding merge_previous
  merge_previous-kept sid new [] acc e = refl
  merge_previous-kept sid new ((j, shard) ∷ previous) acc e =
      merge_previous-kept sid new previous (merge_one ttl now new_ids j shard acc) e
      ∙ merge_one-kept ttl now new_ids j shard acc sid new e

  merge_previous-gone :
      (sid : ℕ) (previous : Dict ℕ Shard) (acc : Dict ℕ ℕ × Dict ℕ Shard)
      → Unique previous
      → Dict.get sid new_ids ≡ none
      → Dict.get sid (merge_previous ttl now new_ids previous acc).1
        ≡ merged_get ttl now (Dict.get sid acc.0) (Dict.get sid previous) (Dict.get sid acc.1)
  unfolding merge_previous Dict.get
  merge_previous-gone sid [] acc u e = refl
  merge_previous-gone sid ((j, shard) ∷ previous) acc u e =
      let acc' = merge_one ttl now new_ids j shard acc in
      elim (Bool-cases (j == sid)) [
        | inl same ↦
            let p : j ≡ sid = (nat_Eq.equal_iff j sid).0 same in
            let gone : Dict.get j new_ids ≡ none = ap (λ i. Dict.get i new_ids) p ∙ e in
            let own =
              merge_previous-gone j previous acc' u.1 gone
              ∙ ap (λ o. merged_get ttl now (Dict.get j acc'.0) o (Dict.get j acc'.1)) u.0
              ∙ merge_one-own ttl now new_ids j shard acc gone in
            rw same (
              subst
                (λ i.
                  Dict.get i (merge_previous ttl now new_ids previous acc').1
                  ≡ merged_get ttl now (Dict.get i acc.0) (some shard) (Dict.get i acc.1))
                p own)
        | inr other ↦
            let (e0, e1) = merge_one-other ttl now new_ids j shard acc sid other in
            rw other (
              merge_previous-gone sid previous acc' u.1 e
              ∙ ap (λ o. merged_get ttl now o (Dict.get sid previous) (Dict.get sid acc'.1)) e0
              ∙ ap (λ o. merged_get ttl now (Dict.get sid acc.0) (Dict.get sid previous) o) e1)
      ]

-- The range that a shard has.
abbrev pub range_of : Option Shard → Option (ℕ × ℕ)
range_of none = none
range_of (some shard) = some (shard.starting_hash_key, shard.ending_hash_key)

-- What stays of a shard that was there before, at the time `now`.
abbrev pub kept_until : ℕ → ℕ → Option ℕ → Option Shard → Option Shard
kept_until ttl now closing previous = merged_get ttl now closing previous none

pub shards-install_snapshot :
    (cfg : ShardMapConfig) (now : ℕ) (fetched : Snapshot) (m : ShardMap)
    → (install_snapshot cfg now fetched m).snapshot.shards
      ≡ (merge_previous cfg.closed_shard_ttl now fetched.shards m.snapshot.shards
          (m.closed_at, fetched.shards)).1
unfolding install_snapshot
shards-install_snapshot cfg now fetched m = ap (λ (s : Snapshot). s.shards) (scheduled _).1

-- After a snapshot is installed a shard of it has its range; one that it lacks keeps the range that
-- it had until `ttl` is over since it was first missed; and no other shard has a range.
pub hashrange-install_snapshot :
    (cfg : ShardMapConfig) (now sid : ℕ) (fetched : Snapshot) (m : ShardMap)
    → Unique m.snapshot.shards
    → hashrange sid (install_snapshot cfg now fetched m)
      ≡ range_of (elim (Dict.get sid fetched.shards) [
        | some shard ↦ some shard
        | none ↦
            kept_until cfg.closed_shard_ttl now
              (Dict.get sid m.closed_at)
              (Dict.get sid m.snapshot.shards)
      ])
unfolding hashrange
hashrange-install_snapshot cfg now sid fetched m u =
    let ttl = cfg.closed_shard_ttl in
    let at_sid =
      ap (λ (d : Dict ℕ Shard). range_of (Dict.get sid d))
        (shards-install_snapshot cfg now fetched m) in
    elim (Option-cases (Dict.get sid fetched.shards)) [
      | inl gone ↦ rw gone (
          at_sid
          ∙ ap range_of (
              merge_previous-gone ttl now fetched.shards sid m.snapshot.shards
                (m.closed_at, fetched.shards) u gone
              ∙ ap
                  (λ o.
                    merged_get ttl now (Dict.get sid m.closed_at) (Dict.get sid m.snapshot.shards)
                      o)
                  gone))
      | inr (new, there) ↦ rw there (
          at_sid
          ∙ ap range_of (
              merge_previous-kept ttl now fetched.shards sid new m.snapshot.shards
                (m.closed_at, fetched.shards) there
              ∙ there))
    ]
