-- ===== src/IoManager/Wakes.antt =====
-- What `schedule` on an IOManager does to the pipe.
use learn_server_concise.Base.{
  ◌+◌, ◌≡◌, refl, true, not, ◌&&◌, none, arith, if◌then◌else◌, Returns, Bool-cases, inl, inr,
}
use learn_server_concise.Scheduler.{
  Executable, make_task, schedule, schedule_non_block, has_idle_thread, is_empty, has_work,
}
use learn_server_concise.IoManager.{Kernel, IoManager, tickle, schedule_io}

-- Where the pipe can be written, scheduling a task that has something to run returns, and writes one
-- byte to the pipe exactly if the list was empty and no thread is idle.
pub schedule_io-wakes :
    (k : Kernel) (exec : Executable) (m : IoManager)
    → k.pipe_write ≡ true
    → has_work (make_task exec none) ≡ true
    → Returns
        (λ m'. m'.piped ≡ (
          if is_empty m.scheduler.tasks && not (has_idle_thread m.scheduler)
          then m.piped + 1
          else m.piped))
        (schedule_io k exec m)
unfolding schedule_io tickle schedule schedule_non_block
schedule_io-wakes k exec m p w = elim (Bool-cases (is_empty m.scheduler.tasks)) [
  | inr f ↦ rw (w, f) refl
  | inl f ↦ elim (Bool-cases (has_idle_thread m.scheduler)) [
    | inl h ↦ rw (w, f, h) refl
    | inr h ↦ rw (w, f, h, p) refl
  ]
]

-- Where the pipe can be written, `tickle` returns and changes the pipe alone.
pub tickle_lem :
    (k : Kernel) (m : IoManager)
    → k.pipe_write ≡ true
    → Returns
        (λ m'.
          (m'.contexts ≡ m.contexts)
          × (m'.pending ≡ m.pending)
          × (m'.timers ≡ m.timers)
          × (m'.scheduler ≡ m.scheduler))
        (tickle k m)
unfolding tickle
tickle_lem k m p = elim (Bool-cases (has_idle_thread m.scheduler)) [
  | inl h ↦ rw h (refl, refl, refl, refl)
  | inr h ↦ rw (h, p) (refl, refl, refl, refl)
]

-- Where the pipe can be written, waking a thread changes nothing but what is in the pipe.
pub tickle-keeps :
    (k : Kernel) (m : IoManager)
    → k.pipe_write ≡ true
    → Returns
        (λ m'.
          (m'.contexts ≡ m.contexts)
          × (m'.pending ≡ m.pending)
          × (m'.timers ≡ m.timers)
          × (m'.scheduler ≡ m.scheduler))
        (tickle k m)
unfolding tickle
tickle-keeps k m h = ground arith
