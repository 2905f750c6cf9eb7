-- ===== src/Enclave.antt =====
-- eservice/lib/libpdo_enclave: the part of the contract enclave that runs requests.
pub mod Host
pub mod Data
pub mod Secrets
pub mod Message
pub mod Code
pub mod ContractState
pub mod Request
pub mod Response
pub mod Process
pub mod Entry
pub mod Worker
