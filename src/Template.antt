-- ===== src/Template.antt =====
-- Parts of packages/template.
pub mod Calculator
