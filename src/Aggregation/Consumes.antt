-- ===== src/Aggregation/Consumes.antt =====
-- What makes the decoding loops of aiokpl/aggregation.py end: each round takes bytes off the
-- buffer. One rule for each way in which a round is built.
use aiokpl.Common.{
  ℕ, ◌<◌, ◌≡◌, ◌≢◌, ◌∙◌, ap, Bool, true, false, ◌∷◌, inl, inr, arith, length, if◌then◌else◌,
}
use aiokpl.Common.Loop.{loop, loop-ne-out_of_fuel}
use aiokpl.Common.Result.{Result, ok, err, ◌>>=◌, Result-cases}
use aiokpl.Aggregation.Types.{Bytes, CodecError, out_of_fuel}
use aiokpl.Aggregation.Varint.{decode_varint}
use aiokpl.Aggregation.Varint.Shrink.{decode_varint_shrinks, decode_varint-ne-out_of_fuel}
use aiokpl.Aggregation.Fields.{read_delimited, skip_unknown}
use aiokpl.Aggregation.Fields.Shrink.{
  read_delimited_shrinks, read_delimited-ne-out_of_fuel, skip_unknown_shrinks,
  skip_unknown-ne-out_of_fuel,
}

-- An error other than `out_of_fuel`, or a state with fewer than `n` bytes left.
pub record Consumes {S : Type 0} (n : ℕ) (r : Result CodecError (S × Bytes)) : Type 0 where
  pub fresh : r ≢ err out_of_fuel
  pub shrinks : (s : S) (rest : Bytes) → r ≡ ok (s, rest) → length rest < n

module _ {S : Type 0} (n : ℕ) where
  pub Consumes-ok : (s : S) (rest : Bytes) → length rest < n → Consumes n (ok (s, rest))
  Consumes-ok s rest h = record { fresh = λ e. cc e; shrinks = λ t left e. ground arith }

  pub Consumes-err : (e : CodecError) → e ≢ out_of_fuel → Consumes {S = S} n (err e)
  Consumes-err e h = record { fresh = λ q. h (cc q); shrinks = λ t left q. cc q }

  pub Consumes-if :
      (b : Bool) (x y : Result CodecError (S × Bytes))
      → Consumes n x
      → Consumes n y
      → Consumes n (if b then x else y)
  Consumes-if true x y h k = h
  Consumes-if false x y h k = k

  -- A step that reads no bytes of the buffer.
  pub Consumes-pure :
      {A : Type 0} (m : Result CodecError A) (f : A → Result CodecError (S × Bytes))
      → m ≢ err out_of_fuel
      → ((a : A) → Consumes n (f a))
      → Consumes n (m >>= f)
  Consumes-pure (ok a) f h k = k a
  Consumes-pure (err e) f h k = Consumes-err e (λ q. h (ap err q))

  pub Consumes-varint :
      (buf : Bytes) (f : ℕ × Bytes → Result CodecError (S × Bytes))
      → ((v : ℕ) (pos : Bytes) → length pos < length buf → Consumes n (f (v, pos)))
      → Consumes n (decode_varint buf >>= f)
  Consumes-varint buf f k = elim (Result-cases (decode_varint buf)) [
    | inl ((v, pos), e) ↦ rw e (k v pos (decode_varint_shrinks buf v pos e))
    | inr (x, e) ↦ rw e (Consumes-err x (λ q. decode_varint-ne-out_of_fuel buf (e ∙ ap err q)))
  ]

  pub Consumes-delimited :
      (x : CodecError) (buf : Bytes) (f : Bytes × Bytes → Result CodecError (S × Bytes))
      → x ≢ out_of_fuel
      → ((p pos : Bytes) → length pos < length buf → Consumes n (f (p, pos)))
      → Consumes n (read_delimited x buf >>= f)
  Consumes-delimited x buf f h k = elim (Result-cases (read_delimited x buf)) [
    | inl ((p, pos), e) ↦ rw e (k p pos (read_delimited_shrinks x buf p pos e))
    | inr (y, e) ↦ rw e (Consumes-err y (λ q. read_delimited-ne-out_of_fuel x buf h (e ∙ ap err q)))
  ]

  pub Consumes-skip :
      (buf : Bytes) (wire_type : ℕ) (f : Bytes → Result CodecError (S × Bytes))
      → ((pos : Bytes) → length pos < length buf → Consumes n (f pos))
      → Consumes n (skip_unknown buf wire_type >>= f)
  Consumes-skip buf w f k = elim (Result-cases (skip_unknown buf w)) [
    | inl (pos, e) ↦ rw e (k pos (skip_unknown_shrinks buf w pos e))
    | inr (y, e) ↦ rw e (Consumes-err y (λ q. skip_unknown-ne-out_of_fuel buf w (e ∙ ap err q)))
  ]

-- A loop whose rounds consume ends with the rounds that it is given.
pub loop-Consumes :
    {S : Type 0} (step : S → Bytes → Result CodecError (S × Bytes))
    → ((s : S) (buf : Bytes) → Consumes (length buf) (step s buf))
    → (s : S) (buf : Bytes) → loop step out_of_fuel (length buf) s buf ≢ err out_of_fuel
loop-Consumes step h s buf =
    loop-ne-out_of_fuel step out_of_fuel (λ s b rest. (h s (b ∷ rest)).fresh)
      (λ s t b rest left e. omega (arith, (h s (b ∷ rest)).shrinks t left e)) (length buf) s buf
      (omega arith)
