-- ===== src/Tests.antt =====
-- The theorems at concrete inputs, and runs of the definitions.
mod Fixtures
mod Coding
mod Logins
mod Calls
mod Mounts
mod Rules
mod Hex
mod Locks
mod Controller
mod Mixer
mod Alsa
mod Tools
mod Volumes
mod Cards
