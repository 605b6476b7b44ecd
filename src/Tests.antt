-- ===== src/Tests.antt =====
-- Runs of the definitions at fixed inputs, and the theorems applied at such inputs.
mod Plain
mod Runs
mod ApiWitnesses
mod StoreWitnesses
mod LocalWitnesses
mod ServerWitnesses
mod SyncWitnesses
mod ContentWitnesses
