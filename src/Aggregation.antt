-- ===== src/Aggregation.antt =====
-- aiokpl/aggregation.py: the KPL aggregation wire format.
pub mod Types
pub mod Varint
pub mod Utf8
pub mod Fields
pub mod Consumes
pub mod TagMessage
pub mod RecordMessage
pub mod Builder
pub mod Codec
mod Tests
