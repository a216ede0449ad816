-- ===== src/Tests.antt =====
-- Concrete data and packages on which the theorems of the library are applied.
pub mod Packages
pub mod Hub
mod ListenerCases
mod PostgresCases
mod ServerCases
mod HubCases
mod ElasticCases
mod SessionCases
mod StoreCases
mod StoredCases
mod AnsweredCases
mod BackendsCases
mod ErasingCases
