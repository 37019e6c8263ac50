-- ===== src/Tests.antt =====
-- The theorems at concrete inputs, and runs of the model on frames of the program's self-tests.
mod Wire
mod Standalone
mod Session
mod Wheel
mod Tier
mod Identity
mod Replay
mod Ab9
mod Mbooster
mod Files
