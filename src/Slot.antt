-- ===== src/Slot.antt =====
-- hostagent/admission.py: the single GPU slot, its reservation for a swap, and the cached reader.
-- Tenants are numbers, sizes are whole MB, and every method runs under the slot's lock.
pub mod State
pub mod Laws
