-- ===== src/FdManager/Sockets.antt =====
-- That every socket the manager knows is non-blocking in the kernel.
use learn_server_concise.Base.{
  ℕ, ◌≤◌, ◌≡◌, ◌≢◌, refl, sym, ◌∙◌, Bool, true, false, not, ◌||◌, List, Option, none, some, leb,
  ◌==◌, if◌then◌else◌, length, get_elem?, set, ok, stop, assertion, Returns, arith, Bool-cases, inl,
  inr, get_elem?-inside, get_elem?-set, get_elem?-set_other,
}
use mathlib.Core.Path.{subst}
use learn_server_concise.Fiber.{is_some}
use learn_server_concise.FdManager.{
  Word, Os, OsLaws, FileDescriptor, blank, init_descriptor, get, TimeoutType, receive, send,
  set_timeout, get_timeout, remove,
}

module _ {S : Type 0} (os : Os S) where
  -- The entry of a socket says that it is non-blocking, and it is.
  abbrev pub IsForced : ℕ → FileDescriptor → S → Type 0
  IsForced fd f s =
      f.is_socket ≡ true → (f.system_non_block ≡ true) × ((os.get_flags fd s).non_block ≡ true)

  abbrev pub AllForced : List (Option FileDescriptor) → S → Type 0
  AllForced fds s =
      (fd : ℕ) (f : FileDescriptor) → get_elem? fds fd ≡ some (some f) → IsForced fd f s

  module _ (laws : OsLaws os) where
    forced_lem :
        (fd : ℕ) (s : S) (b : Bool)
        → (os.get_flags fd s).non_block ≡ b
        → (os.get_flags fd (
            if b
            then s
            else os.set_flags fd (record (os.get_flags fd s) { non_block = true }) s)).non_block
          ≡ true
    forced_lem fd s true e = e
    forced_lem fd s false e = laws.get-set fd _ s

    init-IsForced :
        (fd : ℕ) (s : S)
        → IsForced fd (init_descriptor os (blank fd) s).0 (init_descriptor os (blank fd) s).1
    unfolding init_descriptor
    init-IsForced fd s h = (h, rw h (forced_lem fd s (os.get_flags fd s).non_block refl))

    pub set-others :
        (fd other : ℕ) (s : S) (w : Word)
        → w.non_block ≡ true
        → (os.get_flags other s).non_block ≡ true
        → (os.get_flags other (os.set_flags fd w s)).non_block ≡ true
    set-others fd other s w h k = elim (laws.get-set_other fd other w s) [
      | inl e ↦ e ∙ k
      | inr e ↦ e ∙ h
    ]

    others_lem :
        (fd other : ℕ) (s : S) (w : Word) (a b : Bool)
        → w.non_block ≡ true
        → (os.get_flags other s).non_block ≡ true
        → (os.get_flags other (if a then if b then s else os.set_flags fd w s else s)).non_block
          ≡ true
    others_lem fd other s w true true h k = k
    others_lem fd other s w true false h k = set-others fd other s w h k
    others_lem fd other s w false b h k = k

    init-others :
        (fd other : ℕ) (s : S)
        → (os.get_flags other s).non_block ≡ true
        → (os.get_flags other (init_descriptor os (blank fd) s).1).non_block ≡ true
    unfolding init_descriptor
    init-others fd other s k = others_lem fd other s _ _ _ refl k

    made-AllForced :
        (fd : ℕ) (slot : Option FileDescriptor) (fds : List (Option FileDescriptor)) (s : S)
        → get_elem? fds fd ≡ some slot
        → AllForced fds s
        → AllForced
            (set fds fd (some (init_descriptor os (blank fd) s).0))
            (init_descriptor os (blank fd) s).1
    made-AllForced fd slot fds s e a other f g h = elim (Bool-cases (fd == other)) [
      | inl k ↦
          let same : fd ≡ other = ground arith in
          let there = get_elem?-set fds fd slot (some made.0) e in
          let eq : made.0 ≡ f = cc in
          subst (λ x. IsForced other x made.1) eq
            (subst (λ o. IsForced o made.0 made.1) same (init-IsForced fd s)) h
      | inr k ↦
          let apart : fd ≢ other = ground arith in
          let kept = a other f (sym (get_elem?-set_other fds fd other (some made.0) apart) ∙ g) h in
          (kept.0, init-others fd other s kept.1)
    ]
      where
        made : FileDescriptor × S
        made = init_descriptor os (blank fd) s

  -- What a successful call of `get` gives: the entry, which is there if it was asked to be made.
  pub record Gets (fd : ℕ) (auto_create : Bool) (fds : List (Option FileDescriptor))
      (r : Option FileDescriptor × List (Option FileDescriptor) × S) : Type 0 where
    pub entry : get_elem? r.1 fd ≡ some r.0
    pub made : auto_create ≡ true → is_some r.0 ≡ true
    pub others : (other : ℕ) → fd ≢ other → get_elem? r.1 other ≡ get_elem? fds other
    pub forced : AllForced r.1 r.2

  -- With an fcntl that behaves as documented, and for a descriptor within the list, `get` returns its
  -- entry, and makes one if it is asked to and there is none; it changes no other entry. If every known
  -- socket was non-blocking, every known socket is, a new one included.
  pub get-Gets :
      (fd : ℕ) (auto_create : Bool) (slot : Option FileDescriptor)
      (fds : List (Option FileDescriptor)) (s : S)
      → OsLaws os
      → get_elem? fds fd ≡ some slot
      → AllForced fds s
      → Returns (Gets fd auto_create fds) (get os fd auto_create fds s)
  unfolding get
  get-Gets fd auto_create slot fds s laws e a =
      elim (Bool-cases (is_some slot || not auto_create)) [
        | inl h ↦
            rw (get_elem?-inside fds fd slot e, e, get, h)
              (record { entry = e; made = λ k. ground arith; others = λ other n. refl; forced = a })
        | inr h ↦
            rw (get_elem?-inside fds fd slot e, e, get, h)
              (record {
                entry = get_elem?-set fds fd slot _ e;
                made = λ k. refl;
                others = λ other n. get_elem?-set_other fds fd other _ n;
                forced = made-AllForced laws fd slot fds s e a;
              })
      ]

  -- An entry that is there is found.
  pub get-known :
      (fd : ℕ) (f : FileDescriptor) (fds : List (Option FileDescriptor)) (s : S)
      → get_elem? fds fd ≡ some (some f)
      → get os fd false fds s ≡ ok (some f, fds, s)
  unfolding get
  get-known fd f fds s e = rw (get_elem?-inside fds fd (some f) e, e, get)

  -- For a descriptor behind the list `get` finds nothing, and if it is asked to make the entry it fails
  -- an assertion.
  pub get-asserts :
      (fd : ℕ) (fds : List (Option FileDescriptor)) (s : S)
      → length fds ≤ fd
      → (get os fd false fds s ≡ ok (none, fds, s)) × (get os fd true fds s ≡ stop assertion)
  unfolding get
  get-asserts fd fds s h =
      let out : leb (length fds) fd ≡ true = ground arith in (rw out refl, rw out refl)

pub get_timeout-set_timeout :
    (type other : TimeoutType) (v : ℕ) (f : FileDescriptor)
    → type ≢ other
    → (get_timeout type (set_timeout type v f) ≡ v)
      × (get_timeout other (set_timeout type v f) ≡ get_timeout other f)
unfolding get_timeout set_timeout
get_timeout-set_timeout receive receive v f n = absurd (n refl)
get_timeout-set_timeout receive send v f n = (refl, refl)
get_timeout-set_timeout send receive v f n = (refl, refl)
get_timeout-set_timeout send send v f n = absurd (n refl)

pub remove_lem :
    (fd : ℕ) (slot : Option FileDescriptor) (fds : List (Option FileDescriptor))
    → get_elem? fds fd ≡ some slot
    → remove fd fds ≡ set fds fd none
unfolding remove
remove_lem fd slot fds e = rw (get_elem?-inside fds fd slot e) refl
