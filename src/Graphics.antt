-- ===== src/Graphics.antt =====
-- The graphics library of "Graphic Library": library.c with graphics.h, and the Hilbert curve that
-- hilbert.c draws with it.
pub mod Screen
pub mod Line
pub mod Hilbert
pub mod Programs
mod Tests
