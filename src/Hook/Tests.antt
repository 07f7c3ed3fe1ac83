-- ===== src/Hook/Tests.antt =====
-- The hooks of include/hook.h and src/hook.cc on a concrete system.
use learn_server_concise.Base.{
  ℕ, zero, suc, ◌≡◌, refl, true, false, List, [], ◌∷◌, Option, some, none, ◌==◌, if◌then◌else◌,
  get_elem?, sym, ap, Returns, stop, out_of_fuel, arith, Bool-cases, inl, inr,
}
use learn_server_concise.FdManager.{Word, Os, OsLaws, FileDescriptor, forever}
use learn_server_concise.FdManager.Sockets.{AllForced}
use learn_server_concise.Hook.{fcntl_set_flags, ioctl}
use learn_server_concise.Hook.NonBlock.{Hides, fcntl_set_flags-Hides, ioctl-diverges}

abbrev flat_os : Os (ℕ → Word)
flat_os = record {
  fstat = λ fd s. some true;
  get_flags = λ fd s. s fd;
  set_flags = λ fd w s q. if fd == q then w else s q;
}

flat_laws : OsLaws flat_os
flat_laws = record {
  get-set = λ fd w s. let same : (fd == fd) ≡ true = ground arith in rw same refl;
  get-set_other = λ fd other w s. elim (Bool-cases (fd == other)) [
    | inl e ↦ inr (rw e refl)
    | inr e ↦ inl (rw e refl)
  ];
}

abbrev open_socket : FileDescriptor
open_socket = record {
  is_init = true;
  is_socket = true;
  system_non_block = true;
  user_non_block = false;
  is_closed = false;
  fd = 0;
  recv_timeout = forever;
  send_timeout = forever;
}

-- Descriptor 0 is a socket that the manager knows.
abbrev one_socket : List (Option FileDescriptor)
one_socket = some open_socket ∷ []

abbrev all_non_block : ℕ → Word
all_non_block fd = record { non_block = true; others = 2 }

abbrev blocking_word : Word
blocking_word = record { non_block = false; others = 2 }

one_socket-AllForced : AllForced flat_os one_socket all_non_block
one_socket-AllForced fd f e h = (system fd e, refl)
  where
    system : (fd : ℕ) → get_elem? one_socket fd ≡ some (some f) → f.system_non_block ≡ true
    system zero e = let eq : open_socket ≡ f = cc in sym (ap (λ x. x.system_non_block) eq)
    system (suc n) e = absurd (cc)

fcntl_set_flags-Hides_example :
    Returns
      (Hides flat_os 0 blocking_word open_socket)
      (fcntl_set_flags flat_os 0 blocking_word one_socket all_non_block)
fcntl_set_flags-Hides_example =
    fcntl_set_flags-Hides flat_os 0 blocking_word open_socket one_socket all_non_block flat_laws
      refl refl

ioctl-diverges_example :
    (ioctl flat_os 100 0 none one_socket all_non_block ≡ stop out_of_fuel)
    × (ioctl flat_os 100 0 (some true) one_socket all_non_block ≡ stop out_of_fuel)
ioctl-diverges_example =
    ioctl-diverges flat_os 100 0 true open_socket one_socket all_non_block refl refl
