-- ===== src/Hook/Open/Tests.antt =====
-- accept and close of src/hook.cc on concrete descriptors.
use learn_server_concise.Base.{
  ℕ, ◌≡◌, ◌==◌, refl, ap, true, false, some, none, List, [], ◌∷◌, Option, if◌then◌else◌, Returns,
  zero, suc, arith, Bool-cases, inl, inr,
}
use learn_server_concise.IoManager.Samples.{willing, busy_context, busy, busy-IsValid}
use learn_server_concise.FdManager.{Word, Os, OsLaws, FileDescriptor, forever}
use learn_server_concise.FdManager.Sockets.{AllForced}
use learn_server_concise.Hook.Open.{close}
use learn_server_concise.Hook.Open.Close.{Closes, close-Closes}

-- Every descriptor is a socket, with flags of its own.
abbrev flat_os : Os (ℕ → Word)
flat_os = record {
  fstat = λ fd s. some true;
  get_flags = λ fd s. s fd;
  set_flags = λ fd w s q. if fd == q then w else s q;
}

flat_laws : OsLaws flat_os
flat_laws = record {
  get-set = λ fd w s. let same : (fd == fd) ≡ true = ground arith in rw same refl;
  get-set_other = λ fd other w s. elim (Bool-cases (fd == other)) [
    | inl e ↦ inr (rw e refl)
    | inr e ↦ inl (rw e refl)
  ];
}

abbrev listener : FileDescriptor
listener = record {
  is_init = true;
  is_socket = true;
  system_non_block = true;
  user_non_block = false;
  is_closed = false;
  fd = 0;
  recv_timeout = forever;
  send_timeout = forever;
}

-- Descriptor 0 is known, 1 is not.
abbrev one_known : List (Option FileDescriptor)
one_known = some listener ∷ none ∷ []

abbrev words : ℕ → Word
words fd = record { non_block = fd == 0; others = 2 }

one_known-AllForced : AllForced flat_os one_known words
one_known-AllForced zero f e h = (ap (λ x. x.system_non_block) (listener_eq), refl)
  where
    listener_eq : f ≡ listener
    listener_eq = cc
one_known-AllForced (suc zero) f e h = absurd (cc)
one_known-AllForced (suc (suc n)) f e h = absurd (cc)

close-Closes_example :
    Returns
      (Closes flat_os 0 busy_context busy one_known)
      (close flat_os willing true 0 (some busy) one_known words)
close-Closes_example =
    close-Closes flat_os willing 0 listener busy_context busy one_known words busy-IsValid refl refl
      (λ es. (refl, refl)) refl
