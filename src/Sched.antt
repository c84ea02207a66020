-- ===== src/Sched.antt =====
-- The dummy scheduling class of the modified kernel (task2_scheduler/linux-3.8.3/kernel/sched).
pub mod ListHead
pub mod Dummy
pub mod Prio
pub mod Machine
pub mod Core
pub mod Nice
pub mod SetScheduler
pub mod Wakeup
pub mod Schedule
pub mod Sound
pub mod Waiting
pub mod Syscalls
