-- ===== src/Metrics/Types.antt =====
-- `MetricsLevel` and `MetricKey` of aiokpl/metrics.py, and the messages to a sink of
-- aiokpl/sinks/_types.py.
use aiokpl.Common.{
  ℕ, ◌≡◌, refl, ◌↔◌, ap, Bool, true, ◌&&◌, Option, none, some, List, [], ◌∷◌, ◌++◌, arith,
}
use aiokpl.Common.Eq.{Eq, nat_Eq, list_Eq, option_Eq}
use aiokpl.Aggregation.Types.{Str}
use aiokpl.Metrics.Texts.{stream_dimension, shard_dimension, error_code_dimension}

pub data MetricsLevel : Type 0 where
  none_level summary detailed : MetricsLevel

pub record MetricKey : Type 0 where
  pub name : Str
  pub stream : Option Str
  pub shard_id : Option Str
  pub error_code : Option Str

-- `if value is not None: dims.append((name, value))`
abbrev pub dimension : Str → Option Str → List (Str × Str)
dimension name none = []
dimension name (some value) = (name, value) ∷ []

-- `dimensions`
unfoldable pub dimensions : MetricKey → List (Str × Str)
dimensions k =
    dimension stream_dimension k.stream
    ++ (dimension shard_dimension k.shard_id ++ dimension error_code_dimension k.error_code)

pub record MetricEvent : Type 0 where
  pub name : Str
  pub value : ℕ
  pub timestamp : ℕ
  pub dimensions : List (Str × Str)

-- The bounds are in seconds; `none` is an infinity.
pub record MetricSnapshot : Type 0 where
  pub name : Str
  pub count : ℕ
  pub sum : ℕ
  pub min : Option ℕ
  pub max : Option ℕ
  pub dimensions : List (Str × Str)
  pub window_start : ℕ
  pub window_end : ℕ

abbrev pub key_beq : MetricKey → MetricKey → Bool
key_beq j k =
    list_Eq.equal j.name k.name
    && (option_Eq.equal j.stream k.stream
        && (option_Eq.equal j.shard_id k.shard_id && option_Eq.equal j.error_code k.error_code))

&&_iff : (a b : Bool) → ((a && b) ≡ true) ↔ ((a ≡ true) × (b ≡ true))
&&_iff a b = ground arith

MetricKey-ext :
    (j k : MetricKey)
    → j.name ≡ k.name
    → j.stream ≡ k.stream
    → j.shard_id ≡ k.shard_id
    → j.error_code ≡ k.error_code
    → j ≡ k
MetricKey-ext j k n s i c = rw (n, s, i, c) refl

pub key_beq_iff : (j k : MetricKey) → (key_beq j k ≡ true) ↔ (j ≡ k)
key_beq_iff j k =
    let n = list_Eq.equal_iff j.name k.name in
    let s = option_Eq.equal_iff j.stream k.stream in
    let i = option_Eq.equal_iff j.shard_id k.shard_id in
    let c = option_Eq.equal_iff j.error_code k.error_code in
    let names = &&_iff (list_Eq.equal j.name k.name) _ in
    let streams = &&_iff (option_Eq.equal j.stream k.stream) _ in
    let shards =
      &&_iff (option_Eq.equal j.shard_id k.shard_id) (option_Eq.equal j.error_code k.error_code) in
    (
      (λ h.
          let (a, rest) = names.0 h in
          let (b, more) = streams.0 rest in
          let (d, e) = shards.0 more in MetricKey-ext j k (n.0 a) (s.0 b) (i.0 d) (c.0 e)),
      (λ h. names.1 (
        n.1 (ap (λ x. x.name) h),
        streams.1 (
          s.1 (ap (λ x. x.stream) h),
          shards.1 (i.1 (ap (λ x. x.shard_id) h), c.1 (ap (λ x. x.error_code) h)),
        ),
      )),
    )

-- The generated `==` of the frozen dataclass.
instance abbrev pub MetricKey_Eq : Eq MetricKey
MetricKey_Eq = record { equal = key_beq; equal_iff = key_beq_iff }
