-- ===== src/Payroll.antt =====
-- Payroll: standard remuneration, social insurance premiums and standard bonuses.
pub mod Average
pub mod Grades
pub mod Remuneration
pub mod Premium
pub mod Bonus
mod Tests
