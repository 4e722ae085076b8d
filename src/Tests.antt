-- ===== src/Tests.antt =====
-- Concrete inputs on which the hypotheses of the theorems hold, one module per part of the program.
mod RangeLru
mod TempFiles
mod Fs
mod Stub
mod Watchdog
mod TokenCache
mod TempStore
mod Logging
mod Legacy
mod Daemon
mod Mount
mod Ui
mod Platform
