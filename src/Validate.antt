-- ===== src/Validate.antt =====
-- `validate_params`, `validate_result` and `normalize_work_generate_result` of src/lib.rs, with
-- what each of them accepts.
pub mod Params
pub mod Outcome
