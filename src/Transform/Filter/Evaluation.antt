-- ===== src/Transform/Filter/Evaluation.antt =====
-- The evaluation of a filter, crates/parqonaut-transform/src/engine/filter.rs.
use parqonaut.Prelude.{string_eq}
