-- ===== src/Aggregation/Types.antt =====
-- The dataclasses of aiokpl/aggregation.py and the errors that its functions raise. A byte string
-- is a list of numbers, and a `str` is the list of its code points.
use aiokpl.Common.{ℕ, List, Option}

abbrev pub Bytes : Type 0
Bytes = List ℕ

abbrev pub Str : Type 0
Str = List ℕ

-- `ValueError` with each message of the module. `out_of_fuel` is raised by no function of the
-- module: it marks a loop of the model that was not given enough rounds.
pub data CodecError : Type 0 where
  truncated_varint varint_too_long truncated_field : CodecError
  unsupported_wire_type : ℕ → CodecError
  invalid_utf8 : CodecError
  truncated_tag_key truncated_tag_value tag_key_required : CodecError
  truncated_record_data truncated_record_tag : CodecError
  partition_key_index_required data_required : CodecError
  partition_key_index_out_of_range explicit_hash_key_index_out_of_range : ℕ → CodecError
  no_records payload_too_short bad_magic checksum_mismatch : CodecError
  truncated_partition_key truncated_explicit_hash_key truncated_record : CodecError
  out_of_fuel : CodecError

pub record Tag : Type 0 where
  pub key : Str
  pub value : Option Str

pub record UserRecord : Type 0 where
  pub partition_key : Str
  pub content : Bytes
  pub explicit_hash_key : Option Str
  pub tags : List Tag

pub record DecodedRecord : Type 0 where
  pub partition_key : Str
  pub explicit_hash_key : Option Str
  pub content : Bytes
  pub tags : List Tag
