-- ===== src/Tests.antt =====
-- Concrete runs of the models, and instances of the theorems.
mod Text
mod Sensors
mod Network
mod Rounds
mod Transfer
mod Devices
mod Pages
mod Registry
mod Updates
mod Messages
mod Card
mod Documents
mod Positions
mod Reporting
mod Providers
mod Starting
mod Sharing
mod Names
