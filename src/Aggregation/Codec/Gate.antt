-- ===== src/Aggregation/Codec/Gate.antt =====
-- What a payload must be for the decoder to accept it.
use aiokpl.Common.{
  ap, ℕ, suc, ◌&&◌, ◌+◌, ◌-◌, ◌≤◌, ◌≡◌, ◌≢◌, refl, sym, Bool, true, false, not, List, [], ◌∷◌, ◌++◌,
  arith, leb, ltb, length, length-append, some, take, drop, get_elem?,
}
use mathlib.Core.HLevel.{⊥_prop}
use mathlib.Core.Logic.Or
use mathlib.Core.List.{Mem, Nodup, Nodup-nil, Nodup-cons, mem-cons, not-mem-nil}
use aiokpl.Common.Dict.{Dict}
use aiokpl.Common.Eq.{nat_Eq, list_beq, list_beq_iff}
use aiokpl.Common.Result.{ok, raise_if, >>=-eq-ok}
use aiokpl.Aggregation.Types.{
  Bytes, Str, CodecError, UserRecord, DecodedRecord, payload_too_short, bad_magic,
  checksum_mismatch,
}
use aiokpl.Aggregation.Builder.{AggregatedBuilder, empty_builder, add, add_all, serialize}
use aiokpl.Aggregation.Builder.Index.{IsIndexed, IsIndexed-nil, intern_lem, intern_option_lem}
use aiokpl.Aggregation.Codec.{
  magic, md5_len, starts_with, is_aggregated, encode_aggregated, decode_aggregated,
}

-- The message of a payload, and the digest behind it.
abbrev pub proto_of : Bytes → Bytes
proto_of payload = take (length payload - md5_len - length magic) (drop (length magic) payload)

abbrev pub digest_of : Bytes → Bytes
digest_of payload = drop (length payload - md5_len) payload

gate :
    (n : ℕ) (b : Bool) {u v : Unit {0}}
    → raise_if (ltb n 20) payload_too_short ≡ ok u
    → raise_if (not b) bad_magic ≡ ok v
    → (leb 20 n && b) ≡ true
gate n true p q = ground arith
gate n false p q = cc q

not_raised : (b : Bool) (e : CodecError) {u : Unit {0}} → raise_if (not b) e ≡ ok u → b ≡ true
not_raised true e h = refl
not_raised false e h = cc h

-- A payload that decodes passes `is_aggregated`, and ends in the digest of its message.
pub decode_aggregated_gate :
    (md5 : Bytes → Bytes) (payload : Bytes) (rs : List DecodedRecord)
    → decode_aggregated md5 payload ≡ ok rs
    → (is_aggregated payload ≡ true) × (md5 (proto_of payload) ≡ digest_of payload)
unfolding decode_aggregated is_aggregated
decode_aggregated_gate md5 payload rs h =
    let (u, p, h1) =
      >>=-eq-ok (raise_if (ltb (length payload) (length magic + md5_len)) payload_too_short) _ h in
    let (v, q, h2) = >>=-eq-ok (raise_if (not (starts_with magic payload)) bad_magic) _ h1 in
    let (w, r, h3) =
      >>=-eq-ok
        (raise_if (not (list_beq (md5 (proto_of payload)) (digest_of payload))) checksum_mismatch) _
        h2 in
    (
      gate (length payload) (starts_with magic payload) p q,
      (list_beq_iff (md5 (proto_of payload)) (digest_of payload)).0
          (not_raised _ checksum_mismatch r),
    )

long : (n : ℕ) → 16 ≤ n → (leb 20 (suc (suc (suc (suc n)))) && true) ≡ true
long n h = ground arith

-- Every aggregated payload that the encoder writes passes `is_aggregated`.
pub is_aggregated-encode_aggregated :
    (md5 : Bytes → Bytes) (r s : UserRecord) (rs : List UserRecord) (payload : Bytes)
    → ((b : Bytes) → length (md5 b) ≡ md5_len)
    → encode_aggregated md5 (r ∷ s ∷ rs) ≡ ok payload
    → is_aggregated payload ≡ true
unfolding encode_aggregated is_aggregated
is_aggregated-encode_aggregated md5 r s rs payload digest e =
    let b = add_all empty_builder (r ∷ s ∷ rs) in
    let q : magic ++ (serialize b ++ md5 (serialize b)) ≡ payload = cc e in
    let d = digest (serialize b) in
    rw (← q) (
      long (length (serialize b ++ md5 (serialize b)))
        (omega (arith, length-append (serialize b) (md5 (serialize b)))))

add_all-IsIndexed :
    (b : AggregatedBuilder) (rs : List UserRecord)
    → IsIndexed b.partition_keys b.pk_index
    → IsIndexed b.explicit_hash_keys b.ehk_index
    → IsIndexed (add_all b rs).partition_keys (add_all b rs).pk_index
      × IsIndexed (add_all b rs).explicit_hash_keys (add_all b rs).ehk_index
unfolding add_all add
add_all-IsIndexed b [] p e = (p, e)
add_all-IsIndexed b (r ∷ rs) p e =
    add_all-IsIndexed (add b r) rs
      (intern_lem r.partition_key b.partition_keys b.pk_index p).indexed
      (intern_option_lem r.explicit_hash_key b.explicit_hash_keys b.ehk_index e).indexed

IsIndexed-distinct :
    (t : List Str) (d : Dict Str ℕ) (i j : ℕ) (k : Str)
    → IsIndexed t d
    → get_elem? t i ≡ some k
    → get_elem? t j ≡ some k
    → i ≡ j
IsIndexed-distinct t d i j k v h e = cc ((v.at k i).1 h, (v.at k j).1 e)

not_mem : (k : Str) (t : List Str) → ((i : ℕ) → get_elem? t i ≢ some k) → ¬ Mem k t
not_mem k [] h m = not-mem-nil m
not_mem k (x ∷ t) h m =
    Or.elim ⊥_prop (mem-cons.0 m) (λ e. h 0 (ap some (sym e))) (not_mem k t (λ i. h (suc i)))

Nodup-of_distinct :
    (t : List Str)
    → ((i j : ℕ) (k : Str) → get_elem? t i ≡ some k → get_elem? t j ≡ some k → i ≡ j)
    → Nodup t
Nodup-of_distinct [] h = Nodup-nil
Nodup-of_distinct (x ∷ t) h = Nodup-cons.1 (
  not_mem x t (λ i e. absurd (omega (arith, h 0 (suc i) x refl e))),
  Nodup-of_distinct t (λ i j k p q. omega (arith, h (suc i) (suc j) k p q)),
)

-- The two tables that the builder serializes repeat no key, whatever records were added.
pub add_all-Nodup :
    (rs : List UserRecord)
    → Nodup (add_all empty_builder rs).partition_keys
      × Nodup (add_all empty_builder rs).explicit_hash_keys
add_all-Nodup rs =
    let v = add_all-IsIndexed empty_builder rs IsIndexed-nil IsIndexed-nil in
    (
      Nodup-of_distinct _ (λ i j k. IsIndexed-distinct _ _ i j k v.0),
      Nodup-of_distinct _ (λ i j k. IsIndexed-distinct _ _ i j k v.1),
    )
