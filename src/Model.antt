-- ===== src/Model.antt =====
-- The models that agents ask: the package model.
pub mod Options
pub mod Openai
