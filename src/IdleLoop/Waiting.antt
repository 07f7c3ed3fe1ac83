-- ===== src/IdleLoop/Waiting.antt =====
-- IOManager::isStop, the time that onIdle waits, and the wake-ups of `tickle`.
use learn_server_concise.Base.{
  ℕ, ◌-◌, ◌%◌, ◌^◌, ◌<◌, ◌≡◌, true, ◌&&◌, ◌||◌, ltb, pos, negsuc, ◌==◌, if◌then◌else◌, arith, ◌↔◌,
}
use learn_server_concise.Scheduler.{is_stop}
use learn_server_concise.Timer.{no_timeout}
use learn_server_concise.IoManager.{IoManager}
use learn_server_concise.IdleLoop.{is_stop_io, max_timeout, wait_time}

-- For a time until the next timer below 2^64, onIdle passes epoll_wait its lowest 32 bits, read as a
-- number with a sign, but 1000 where that is more or where there is no timer. A time with bit 31 set
-- gives a negative number, with which epoll_wait has no limit.
pub wait_time-cases :
    (next : ℕ)
    → next < 2 ^ 64
    → wait_time next ≡ (
        if next == no_timeout || (ltb max_timeout (next % 2 ^ 32) && ltb (next % 2 ^ 32) (2 ^ 31))
        then pos max_timeout
        else if ltb (next % 2 ^ 32) (2 ^ 31)
        then pos (next % 2 ^ 32)
        else negsuc (2 ^ 32 - 1 - next % 2 ^ 32))
unfolding wait_time
wait_time-cases next h = ground arith

-- The manager has stopped exactly if there is no timer, no event is waited for and its scheduler has
-- stopped.
pub is_stop_io_iff :
    (m : IoManager) (timeout : ℕ)
    → (is_stop_io timeout m ≡ true)
      ↔ ((timeout ≡ no_timeout) × (m.pending ≡ 0) × (is_stop m.scheduler ≡ true))
unfolding is_stop_io
is_stop_io_iff m timeout = ground arith
