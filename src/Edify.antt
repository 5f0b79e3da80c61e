-- ===== src/Edify.antt =====
-- edify/expr.h, edify/expr.c: the evaluator of update scripts.
pub mod Run
pub mod Functions
pub mod Safety
pub mod Laws
pub mod Numbers
mod Tests
