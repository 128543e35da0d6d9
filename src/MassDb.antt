-- ===== src/MassDb.antt =====
-- poc/engine/massdb and poc/engine/massdb/massdb.v1: the plotted file of one space.
pub mod Base
pub mod Files
pub mod HashMap
pub mod Cache
pub mod PrePlot
mod Tests
pub mod Plot
