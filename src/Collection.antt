-- ===== src/Collection.antt =====
-- core/collection: the fixed ring, the growing queue, the rolling window, the map in two parts, the
-- cache and the timing wheel.
pub mod Cache
pub mod Ring
pub mod Fifo
pub mod Bucket
pub mod RollingWindow
pub mod SafeMap
pub mod TimingWheel
mod Tests
