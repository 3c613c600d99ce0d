-- ===== src/Flood.antt =====
-- internal/flood: pacing of the lines that go to the uplink.
pub mod LinePacer
