-- ===== src/Replacer.antt =====
-- The page replacers of MiniDB/src/buffer: `Clock` (Clock.cpp), `ClockPro` (ClockPro.cpp) and
-- `LayeredClock` (LayeredClock.cpp). `Ring` holds what their loops round the frames share.
pub mod Ring
pub mod Clock
pub mod ClockPro
pub mod Layered
pub mod Tests
