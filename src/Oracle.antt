-- ===== src/Oracle.antt =====
-- fvdb/utils/tests/convolution_semantics_oracle.py.
pub mod Relation
pub mod RoundTrip
pub mod Edges
