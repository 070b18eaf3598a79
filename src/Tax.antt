-- ===== src/Tax.antt =====
-- The tax services of backend/app/services. An amount in the database has four decimals
-- (`Numeric(15, 4)`), so it is given as the number of ten-thousandths of a yen; what a service
-- rounds to whole yen is returned as the number of yen. A ValueError is the text that it carries.
-- `decimal` computes with 28 significant digits, enough for sums, products and quotients of such
-- amounts and rates to be exact or, at a quotient, to have the same whole part.
pub mod Units
pub mod IncomeTax
pub mod SalaryDeduction
pub mod Retirement
pub mod Residence
pub mod Consumption
pub mod InvoiceTax
mod Tests
