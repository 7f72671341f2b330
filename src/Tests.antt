-- ===== src/Tests.antt =====
-- The theorems at concrete states of the kernel's modules, and short runs of the code.
mod Heap
mod Freed
mod Frames
mod Areas
mod Words
mod Text
mod Devices
mod Threads
mod Tasks
mod Loader
mod Status
mod Exceptions
mod Paging
