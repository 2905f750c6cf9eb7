-- ===== src/Provisioning.antt =====
-- pservice/lib/libpdo_enclave: the enclave of a provisioning service.
pub mod Info
pub mod Secret
