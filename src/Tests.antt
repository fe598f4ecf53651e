-- ===== src/Tests.antt =====
-- The theorems at concrete inputs, and runs of the code that can be followed in the sources.
mod Queues
mod Windows
mod Streams
mod Sessions
mod Converters
mod Pools
mod Parsers
mod Requests
mod Threads
mod Learning
