-- ===== src/Hook/NonBlock.antt =====
-- The two views of O_NONBLOCK, the time-outs of sockets, and ioctl.
use learn_server_concise.Base.{
  ℕ, zero, suc, ◌+◌, ◌*◌, ◌^◌, ◌<◌, ◌≡◌, refl, sym, ◌∙◌, ap, Bool, true, false, List, Option, none,
  some, ◌==◌, get_elem?, stop, out_of_fuel, Returns, arith, Bool-cases, inl, inr, get_elem?-set,
  get_elem?-set_other, ◌≢◌,
}
use Prim.Native.Nat.{◌/◌}
use mathlib.Core.Path.{subst}
use learn_server_concise.FdManager.{
  Word, Os, OsLaws, FileDescriptor, TimeoutType, set_timeout, get_timeout,
}
use learn_server_concise.FdManager.Sockets.{
  AllForced, set-others, get-known, get_timeout-set_timeout,
}
use learn_server_concise.Hook.{
  is_passed, put_descriptor, fcntl_set_flags, fcntl_get_flags, set_socket_timeout, ioctl,
}

not_passed : (f : FileDescriptor) → is_passed f ≡ false → f.is_socket ≡ true
not_passed f h = ground arith

module _ {S : Type 0} (os : Os S) where
  -- What setting the flags of an open socket gives, where `arg` is the word that was set.
  pub record Hides (fd : ℕ) (arg : Word) (f : FileDescriptor) (r : List (Option FileDescriptor) × S)
      : Type 0 where
    pub user : Returns (λ w. w.non_block ≡ arg.non_block) (fcntl_get_flags os fd r.0 r.1)
    pub kernel : (os.get_flags fd r.1).non_block ≡ f.system_non_block

  -- With an fcntl that behaves as documented, after F_SETFL on an open socket that the manager knows
  -- F_GETFL reports the O_NONBLOCK that was set, while the kernel keeps the one that the manager chose.
  pub fcntl_set_flags-Hides :
      (fd : ℕ) (arg : Word) (f : FileDescriptor) (fds : List (Option FileDescriptor)) (s : S)
      → OsLaws os
      → get_elem? fds fd ≡ some (some f)
      → is_passed f ≡ false
      → Returns (Hides fd arg f) (fcntl_set_flags os fd arg fds s)
  unfolding fcntl_set_flags fcntl_get_flags
  fcntl_set_flags-Hides fd arg f fds s laws e h =
      rw (get-known os fd f fds s e, h)
        (record {
          user =
              rw
                (
                  get-known os fd (record f { user_non_block = arg.non_block }) _ _
                      (get_elem?-set fds fd (some f)
                        (some (record f { user_non_block = arg.non_block })) e),
                  h,
                )
                refl;
          kernel = laws.get-set fd _ s;
        })

  -- With an fcntl that behaves as documented, F_SETFL on an open socket that the manager knows keeps every
  -- known socket non-blocking in the kernel.
  pub fcntl_set_flags-AllForced :
      (fd : ℕ) (arg : Word) (f : FileDescriptor) (fds : List (Option FileDescriptor)) (s : S)
      → OsLaws os
      → get_elem? fds fd ≡ some (some f)
      → is_passed f ≡ false
      → AllForced os fds s
      → Returns (λ r. AllForced os r.0 r.1) (fcntl_set_flags os fd arg fds s)
  unfolding fcntl_set_flags
  fcntl_set_flags-AllForced fd arg f fds s laws e h a =
      rw (get-known os fd f fds s e, h)
        (λ other g k sk. elim (Bool-cases (fd == other)) [
          | inl q ↦
              let same : fd ≡ other = ground arith in
              let there = get_elem?-set fds fd (some f) (some written) e in
              let eq : written ≡ g = cc in
              let forced = (a fd f e (ap (λ x. x.is_socket) eq ∙ sk)).0 in
              (
                sym (ap (λ x. x.system_non_block) eq) ∙ forced,
                subst (λ o. (os.get_flags o after).non_block ≡ true) same
                    (laws.get-set fd _ s ∙ forced),
              )
          | inr q ↦
              let apart : fd ≢ other = ground arith in
              let kept =
                a other g (sym (get_elem?-set_other fds fd other (some written) apart) ∙ k) sk in
              (
                kept.0,
                set-others os laws fd other s (record arg { non_block = f.system_non_block })
                    (a fd f e (not_passed f h)).0 kept.1,
              )
        ])
    where
      written : FileDescriptor
      written = record f { user_non_block = arg.non_block }

      after : S
      after = os.set_flags fd (record arg { non_block = f.system_non_block }) s

  -- The time-out that setsockopt is given in seconds and microseconds is kept in whole milliseconds,
  -- for that direction alone.
  pub set_socket_timeout-get_timeout :
      (fd : ℕ) (type other : TimeoutType) (sec usec : ℕ) (f : FileDescriptor)
      (fds : List (Option FileDescriptor)) (s : S)
      → get_elem? fds fd ≡ some (some f)
      → type ≢ other
      → sec * 1000 + usec / 1000 < 2 ^ 64
      → Returns
          (λ fds'.
            (f' : FileDescriptor) × (get_elem? fds' fd ≡ some (some f'))
            × (get_timeout type f' ≡ sec * 1000 + usec / 1000)
            × (get_timeout other f' ≡ get_timeout other f))
          (set_socket_timeout os fd type sec usec fds s)
  unfolding set_socket_timeout
  set_socket_timeout-get_timeout fd type other sec usec f fds s e n h =
      rw (get-known os fd f fds s e) (
        set_timeout type _ f,
        get_elem?-set fds fd (some f) _ e,
        (get_timeout-set_timeout type other _ f n).0 ∙ omega arith,
        (get_timeout-set_timeout type other _ f n).1,
      )

  -- For an open socket that the manager knows, the hooked ioctl does not come to the real call within any
  -- number of calls of itself, neither for FIONBIO nor for another request.
  pub ioctl-diverges :
      (calls fd : ℕ) (b : Bool) (f : FileDescriptor) (fds : List (Option FileDescriptor)) (s : S)
      → get_elem? fds fd ≡ some (some f)
      → is_passed f ≡ false
      → (ioctl os calls fd none fds s ≡ stop out_of_fuel)
        × (ioctl os calls fd (some b) fds s ≡ stop out_of_fuel)
  unfolding ioctl
  ioctl-diverges zero fd b f fds s e h = (refl, refl)
  ioctl-diverges (suc n) fd b f fds s e h = (
    (ioctl-diverges n fd b f fds s e h).0,
    rw (get-known os fd f fds s e, h)
        (ioctl-diverges n fd b (record f { user_non_block = b })
          (put_descriptor fd (record f { user_non_block = b }) fds) s
          (get_elem?-set fds fd (some f) (some (record f { user_non_block = b })) e) h).1,
  )
