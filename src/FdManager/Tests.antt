-- ===== src/FdManager/Tests.antt =====
-- The manager of include/fd_manager.h and src/fd_manager.cc on a concrete system.
use learn_server_concise.Base.{
  ℕ, zero, suc, ◌≡◌, refl, true, false, List, [], ◌∷◌, Option, some, none, ◌==◌, if◌then◌else◌,
  Returns, arith, Bool-cases, inl, inr,
}
use learn_server_concise.FdManager.{Word, Os, OsLaws, FileDescriptor, get}
use learn_server_concise.FdManager.Sockets.{AllForced, Gets, get-Gets}

-- Descriptor 1 is a socket, 0 a file; both block.
abbrev flat_os : Os (ℕ → Word)
flat_os = record {
  fstat = λ fd s. some (fd == 1);
  get_flags = λ fd s. s fd;
  set_flags = λ fd w s q. if fd == q then w else s q;
}

abbrev blocking : ℕ → Word
blocking fd = record { non_block = false; others = 2 }

flat_laws : OsLaws flat_os
flat_laws = record {
  get-set = λ fd w s. let same : (fd == fd) ≡ true = ground arith in rw same refl;
  get-set_other = λ fd other w s. elim (Bool-cases (fd == other)) [
    | inl e ↦ inr (rw e refl)
    | inr e ↦ inl (rw e refl)
  ];
}

abbrev no_descriptors : List (Option FileDescriptor)
no_descriptors = none ∷ none ∷ []

nothing_known : AllForced flat_os no_descriptors blocking
nothing_known zero f e h = absurd (cc)
nothing_known (suc zero) f e h = absurd (cc)
nothing_known (suc (suc n)) f e h = absurd (cc)

get-Gets_example :
    Returns (Gets flat_os 1 true no_descriptors) (get flat_os 1 true no_descriptors blocking)
get-Gets_example = get-Gets flat_os 1 true none no_descriptors blocking flat_laws refl nothing_known
