-- ===== src/Compile.antt =====
-- crates/ngxora-compile/src: the intermediate representation of a configuration, the literals of
-- directives and the validation.
pub mod Ir
pub mod Values
pub mod Validate
