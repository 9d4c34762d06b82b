-- ===== src/Aggregation/Builder/RoundTrip.antt =====
-- What a builder holds after a list of records: tables of texts, and for each record a message
-- whose indices stand for the record's keys, also after more keys have joined the tables.
use mathlib.Core.List.{append_assoc, append-nil}
use aiokpl.Common.{
  Option-cases, inl, inr, ℕ, ◌≡◌, refl, Option, none, some, List, [], ◌∷◌, ◌++◌, All, All-append,
  get_elem?,
}
use aiokpl.Common.Eq.{list_Eq, nat_Eq}
use aiokpl.Common.Dict
use aiokpl.Common.Dict.{Dict}
use aiokpl.Aggregation.Types.{Bytes, Str, UserRecord}
use aiokpl.Aggregation.Utf8.{IsText}
use aiokpl.Aggregation.TagMessage.RoundTrip.{TextTag, TextOption}
use aiokpl.Aggregation.RecordMessage.{encode_record_msg}
use aiokpl.Aggregation.RecordMessage.RoundTrip.{EhkAt}
use aiokpl.Aggregation.Builder.{
  AggregatedBuilder, empty_builder, intern, intern_option, add, add_all,
}
use aiokpl.Aggregation.Builder.Index.{
  IsIndexed, IsIndexed-nil, Extends, intern_lem, intern_option_lem,
}

-- A record whose keys and tags are texts.
pub record TextRecord (r : UserRecord) : Type 0 where
  pub partition_key : IsText r.partition_key
  pub explicit_hash_key : TextOption r.explicit_hash_key
  pub tags : All TextTag r.tags

-- The message stands for the record under the tables.
pub record Stands (pks ehks : List Str) (blob : Bytes) (r : UserRecord) : Type 0 where
  pub i : ℕ
  pub j : Option ℕ
  pub pk : get_elem? pks i ≡ some r.partition_key
  pub ehk : EhkAt ehks j r.explicit_hash_key
  pub encoded : blob ≡ encode_record_msg i j r.content r.tags

abbrev pub StandAll : List Str → List Str → List Bytes → List UserRecord → Type 0
StandAll pks ehks [] [] = Unit
StandAll pks ehks (blob ∷ blobs) (r ∷ rs) = Stands pks ehks blob r × StandAll pks ehks blobs rs
StandAll pks ehks _ _ = ⊥

EhkAt-Extends :
    (t t' : List Str) (j : Option ℕ) (k : Option Str) → Extends t t' → EhkAt t j k → EhkAt t' j k
EhkAt-Extends t t' none none x h = tt
EhkAt-Extends t t' none (some k) x h = absurd h
EhkAt-Extends t t' (some j) none x h = absurd h
EhkAt-Extends t t' (some j) (some k) x h = x.at j k h

module _ (p p' e e' : List Str) (px : Extends p p') (ex : Extends e e') where
  StandAll-extends :
      (blobs : List Bytes) (rs : List UserRecord) → StandAll p e blobs rs → StandAll p' e' blobs rs
  StandAll-extends [] [] h = tt
  StandAll-extends [] (r ∷ rs) h = absurd h
  StandAll-extends (blob ∷ blobs) [] h = absurd h
  StandAll-extends (blob ∷ blobs) (r ∷ rs) h =
      let s = h.0 in
      (
        record {
          i = s.i;
          j = s.j;
          pk = px.at s.i r.partition_key s.pk;
          ehk = EhkAt-Extends e e' s.j r.explicit_hash_key ex s.ehk;
          encoded = s.encoded;
        },
        StandAll-extends blobs rs h.1,
      )

StandAll-snoc :
    (p e : List Str) (blobs : List Bytes) (rs : List UserRecord) (blob : Bytes) (r : UserRecord)
    → StandAll p e blobs rs
    → Stands p e blob r
    → StandAll p e (blobs ++ blob ∷ []) (rs ++ r ∷ [])
StandAll-snoc p e [] [] blob r h s = (s, tt)
StandAll-snoc p e [] (x ∷ rs) blob r h s = absurd h
StandAll-snoc p e (b ∷ blobs) [] blob r h s = absurd h
StandAll-snoc p e (b ∷ blobs) (x ∷ rs) blob r h s = (h.0, StandAll-snoc p e blobs rs blob r h.1 s)

pub record Agrees (b : AggregatedBuilder) (rs : List UserRecord) : Type 0 where
  pub pk_indexed : IsIndexed b.partition_keys b.pk_index
  pub ehk_indexed : IsIndexed b.explicit_hash_keys b.ehk_index
  pub pk_texts : All IsText b.partition_keys
  pub ehk_texts : All IsText b.explicit_hash_keys
  pub stand : StandAll b.partition_keys b.explicit_hash_keys b.records rs

pub Agrees-empty : Agrees empty_builder []
Agrees-empty = record {
  pk_indexed = IsIndexed-nil;
  ehk_indexed = IsIndexed-nil;
  pk_texts = tt;
  ehk_texts = tt;
  stand = tt;
}

intern-texts :
    (key : Str) (t : List Str) (d : Dict Str ℕ)
    → IsText key
    → All IsText t
    → All IsText (intern key t d).1
unfolding intern
intern-texts key t d h k = elim (Option-cases (Dict.get key d)) [
  | inl fresh ↦ rw (fresh, intern) (All-append IsText t (key ∷ []) k (h, tt))
  | inr (i, old) ↦ rw (old, intern) k
]

intern_option-texts :
    (key : Option Str) (t : List Str) (d : Dict Str ℕ)
    → TextOption key
    → All IsText t
    → All IsText (intern_option key t d).1
unfolding intern_option
intern_option-texts none t d h k = k
intern_option-texts (some key) t d h k = intern-texts key t d h k

-- One more record.
pub add-Agrees :
    (b : AggregatedBuilder) (rs : List UserRecord) (r : UserRecord)
    → TextRecord r
    → Agrees b rs
    → Agrees (add b r) (rs ++ r ∷ [])
unfolding add
add-Agrees b rs r text v =
    let pk = intern_lem r.partition_key b.partition_keys b.pk_index v.pk_indexed in
    let ehk =
      intern_option_lem r.explicit_hash_key b.explicit_hash_keys b.ehk_index v.ehk_indexed in
    record {
      pk_indexed = pk.indexed;
      ehk_indexed = ehk.indexed;
      pk_texts =
          intern-texts r.partition_key b.partition_keys b.pk_index text.partition_key v.pk_texts;
      ehk_texts =
          intern_option-texts r.explicit_hash_key b.explicit_hash_keys b.ehk_index
            text.explicit_hash_key v.ehk_texts;
      stand =
          StandAll-snoc _ _ b.records rs _ r
            (StandAll-extends _ _ _ _ pk.extends ehk.extends b.records rs v.stand)
            (record { i = _; j = _; pk = pk.entry; ehk = ehk.entry; encoded = refl });
    }

pub add_all-Agrees :
    (b : AggregatedBuilder) (done rs : List UserRecord)
    → All TextRecord rs
    → Agrees b done
    → Agrees (add_all b rs) (done ++ rs)
unfolding add_all
add_all-Agrees b done [] texts v = rw (append-nil done) v
add_all-Agrees b done (r ∷ rs) texts v =
    rw (append_assoc done (r ∷ []) rs) at
      (add_all-Agrees (add b r) (done ++ r ∷ []) rs texts.1 (add-Agrees b done r texts.0 v))
