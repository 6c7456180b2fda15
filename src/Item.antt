-- ===== src/Item.antt =====
-- item.rs: what a record type gives to its collection. A codec may fail.
use collette.Prelude.{String}
use collette.Bytes.{Bytes}
use collette.Outcome.{Outcome}

abbrev pub CodecError : Type 0
CodecError = String

-- The methods of `Item`, for records `R` with primary keys `PK`.
pub record Item (R PK : Type 0) : Type 0 where
  pub key : R → PK
  pub to_bytes : R → Outcome CodecError Bytes
  pub from_bytes : Bytes → Outcome CodecError R
