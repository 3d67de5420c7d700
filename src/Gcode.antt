-- ===== src/Gcode.antt =====
-- agent_gcode.py: sending the loaded G-code program to the dashboard, cut into packets.
pub mod Split
pub mod Pieces
pub mod Sender
pub mod Resend
mod Tests
