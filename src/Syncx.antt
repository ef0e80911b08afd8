-- ===== src/Syncx.antt =====
-- core/syncx: resources that are shared.
pub mod RefResource
