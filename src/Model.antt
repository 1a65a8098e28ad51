-- ===== src/Model.antt =====
-- The data model: the enumerations of src/model/state.rs, the errors of src/error.rs, and the rows
-- of src/model/records.rs as the statements of src/ops read and write them.
pub mod State
pub mod Errors
pub mod Rows
