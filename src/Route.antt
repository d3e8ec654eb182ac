-- ===== src/Route.antt =====
-- Package internal/parser/route.
pub mod Domain
pub mod TypeNames
pub mod Convert
pub mod Register
pub mod Response
pub mod Parameter
pub mod Operation
