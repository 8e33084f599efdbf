-- ===== src/Vector.antt =====
-- crates/skeg-vector: what of it does not compute with floats.
pub mod Kind
