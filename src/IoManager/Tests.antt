-- ===== src/IoManager/Tests.antt =====
-- The manager of include/io_manager.h and src/io_manager.cc on a concrete list of contexts.
use learn_server_concise.Base.{refl, true, none, Returns, arith}
use learn_server_concise.FdContext.{read_event, write_event, fresh_context}
use learn_server_concise.IoManager.{
  make_room, add_event_listener, remove_event_listener, cancel_all,
}
use learn_server_concise.IoManager.Listeners.{Adds, add_event_listener-Adds}
use learn_server_concise.IoManager.Removal.{Removes, remove_event_listener-Removes}
use learn_server_concise.IoManager.Cancel.{Cancels, cancel_all-Cancels}
use learn_server_concise.IoManager.Samples.{willing, busy_context, busy, busy-IsValid}

add_event_listener-Adds_example :
    Returns (Adds 1 read_event true busy) (add_event_listener willing 1 read_event none 6 busy)
unfolding make_room
add_event_listener-Adds_example =
    add_event_listener-Adds willing 1 read_event none 6 busy (fresh_context 1) busy-IsValid refl
      (omega arith) refl (λ e. cc)

remove_event_listener-Removes_example :
    Returns
      (Removes 0 write_event busy_context busy)
      (remove_event_listener willing 0 write_event busy)
remove_event_listener-Removes_example =
    remove_event_listener-Removes willing 0 write_event busy busy_context busy-IsValid refl
      (λ es. (refl, refl))

cancel_all-Cancels_example : Returns (Cancels 0 busy_context busy) (cancel_all willing 0 busy)
cancel_all-Cancels_example =
    cancel_all-Cancels willing 0 busy busy_context busy-IsValid refl (λ es. (refl, refl)) refl
