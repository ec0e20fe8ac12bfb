-- ===== src/Thread.antt =====
-- thread/: the dispatcher, the scheduler and the assassin.
pub mod Context
pub mod Dispatcher
pub mod Scheduler
