-- ===== src/Prompts.antt =====
-- The prompts of app/analysis/prompt.py and app/analysis/categories/.
pub mod Classify
pub mod Restaurant
pub mod Schedule
pub mod Study
pub mod LifeInfo
