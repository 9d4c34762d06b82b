-- ===== src/Aggregation/Builder/Index.antt =====
-- The index dict of a builder holds exactly the positions of the table.
use aiokpl.Common.{
  ℕ, zero, suc, ◌≡◌, ◌↔◌, ◌⊎◌, refl, Option, none, some, List, [], ◌∷◌, ◌++◌, inl, inr,
  Option-cases, Bool-cases, arith, length, get_elem?, get_elem?-append_left,
  get_elem?-append_length, true,
}
use aiokpl.Common.Eq.{list_Eq, nat_Eq, list_beq, list_beq_iff}
use aiokpl.Common.Dict
use aiokpl.Common.Dict.{Dict, get-put}
use aiokpl.Aggregation.Types.{Str}
use aiokpl.Aggregation.RecordMessage.RoundTrip.{EhkAt}
use aiokpl.Aggregation.Builder.{intern, intern_option}

-- A key is at an index of the dict exactly if it is at that position of the table: so no key
-- stands twice in the table.
pub record IsIndexed (table : List Str) (index : Dict Str ℕ) : Type 0 where
  pub at : (k : Str) (i : ℕ) → (Dict.get k index ≡ some i) ↔ (get_elem? table i ≡ some k)

-- Every entry keeps its place.
pub record Extends (table table' : List Str) : Type 0 where
  pub at : (i : ℕ) (k : Str) → get_elem? table i ≡ some k → get_elem? table' i ≡ some k

pub Extends-refl : (t : List Str) → Extends t t
Extends-refl t = record { at = λ i k h. h }

Extends-snoc : (t : List Str) (k : Str) → Extends t (t ++ k ∷ [])
Extends-snoc t k = record { at = λ i j h. get_elem?-append_left t (k ∷ []) i h }

-- What stands in a table with one more entry.
snoc_cases :
    (t : List Str) (key k : Str) (i : ℕ)
    → get_elem? (t ++ key ∷ []) i ≡ some k
    → (get_elem? t i ≡ some k) ⊎ ((i ≡ length t) × (key ≡ k))
snoc_cases [] key k zero h = inr (refl, ground arith)
snoc_cases [] key k (suc i) h = ground arith
snoc_cases (x ∷ t) key k zero h = inl h
snoc_cases (x ∷ t) key k (suc i) h = elim (snoc_cases t key k i h) [
  | inl e ↦ inl e
  | inr (e, f) ↦ inr (omega arith, f)
]

abbrev key_eq_iff : (j k : Str) → (list_beq j k ≡ true) ↔ (j ≡ k)
key_eq_iff = list_beq_iff

-- A key that is new to the dict is put at the end.
module _ (key : Str) (t : List Str) (d : Dict Str ℕ) (v : IsIndexed t d)
    (fresh : Dict.get key d ≡ none) where
  entry_there :
      (k : Str) (i : ℕ)
      → Dict.get k (Dict.put key (length t) d) ≡ some i
      → get_elem? (t ++ key ∷ []) i ≡ some k
  entry_there k i h = elim (Bool-cases (list_beq key k)) [
    | inl same ↦
        let e : key ≡ k = (key_eq_iff key k).0 same in
        let n : length t ≡ i = ground (arith, get-put key k (length t) d) in
        rw (← n, ← e) (get_elem?-append_length t key)
    | inr other ↦
        get_elem?-append_left t (key ∷ []) i
          ((v.at k i).0 (ground (arith, get-put key k (length t) d)))
  ]

  entry_back :
      (k : Str) (i : ℕ)
      → get_elem? (t ++ key ∷ []) i ≡ some k
      → Dict.get k (Dict.put key (length t) d) ≡ some i
  entry_back k i h = elim (snoc_cases t key k i h) [
    | inl old ↦
        let found : Dict.get k d ≡ some i = (v.at k i).1 old in
        elim (Bool-cases (list_beq key k)) [
          | inl same ↦ cc (fresh, found, (key_eq_iff key k).0 same)
          | inr other ↦ ground (arith, get-put key k (length t) d)
        ]
    | inr (n, e) ↦
        let same : list_beq key k ≡ true = (key_eq_iff key k).1 e in
        ground (arith, get-put key k (length t) d)
  ]

  put-IsIndexed : IsIndexed (t ++ key ∷ []) (Dict.put key (length t) d)
  put-IsIndexed = record { at = λ k i. (entry_there k i, entry_back k i) }

-- What `intern` does to a table and its index.
pub record Interned (key : Str) (t : List Str) (r : ℕ × List Str × Dict Str ℕ) : Type 0 where
  pub indexed : IsIndexed r.1 r.2
  pub extends : Extends t r.1
  pub entry : get_elem? r.1 r.0 ≡ some key

pub intern_lem :
    (key : Str) (t : List Str) (d : Dict Str ℕ) → IsIndexed t d → Interned key t (intern key t d)
unfolding intern
intern_lem key t d v = elim (Option-cases (Dict.get key d)) [
  | inl fresh ↦
      rw (fresh, intern)
        (record {
          indexed = put-IsIndexed key t d v fresh;
          extends = Extends-snoc t key;
          entry = get_elem?-append_length t key;
        })
  | inr (i, old) ↦
      rw (old, intern)
        (record { indexed = v; extends = Extends-refl t; entry = (v.at key i).0 old })
]

pub record InternedOption (key : Option Str) (t : List Str) (r : Option ℕ × List Str × Dict Str ℕ)
    : Type 0 where
  pub indexed : IsIndexed r.1 r.2
  pub extends : Extends t r.1
  pub entry : EhkAt r.1 r.0 key

pub intern_option_lem :
    (key : Option Str) (t : List Str) (d : Dict Str ℕ)
    → IsIndexed t d
    → InternedOption key t (intern_option key t d)
unfolding intern_option
intern_option_lem none t d v = record { indexed = v; extends = Extends-refl t; entry = tt }
intern_option_lem (some key) t d v =
    let i = intern_lem key t d v in
    record { indexed = i.indexed; extends = i.extends; entry = i.entry }

pub IsIndexed-nil : IsIndexed [] []
unfolding Dict.get
IsIndexed-nil = record { at = λ k i. (λ h. cc h, λ h. cc h) }
