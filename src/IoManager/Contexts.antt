-- ===== src/IoManager/Contexts.antt =====
-- The list of contexts: its length, its entries, and what is valid in it.
use learn_server_concise.Base.{
  ℕ, zero, suc, ◌+◌, ◌-◌, ◌*◌, ◌^◌, ◌≤◌, ◌≡◌, refl, ap, Bool, true, false, not, List, [], ◌∷◌, some,
  ltb, if◌then◌else◌, length, length-set, get_elem?, set, All, arith, Bool-cases, inl, inr,
}
use mathlib.Core.Path.{subst}
use learn_server_concise.Fiber.{is_some}
use learn_server_concise.FdContext.{EventHandler, empty_handler, FdContext, fresh_context}
use learn_server_concise.IoManager.{
  IoManager, fresh_contexts, resize_from, context_list_resize, make_room, down,
}

-- A handler is set exactly while its event is waited for, with a fiber or a function, not both.
abbrev pub HandlerOk : Bool → EventHandler → Type 0
HandlerOk true h = (h.scheduler ≡ true) × (is_some h.callback ≡ not (is_some h.fiber))
HandlerOk false h = h ≡ empty_handler

pub record ContextOk (c : FdContext) : Type 0 where
  pub reads : HandlerOk c.events.read c.read_handler
  pub writes : HandlerOk c.events.write c.write_handler

abbrev pub one_if : Bool → ℕ
one_if true = 1
one_if false = 0

-- How many events a context waits for.
abbrev pub weight : FdContext → ℕ
weight c = one_if c.events.read + one_if c.events.write

unfoldable pub total : List FdContext → ℕ
total [] = 0
total (c ∷ cs) = weight c + total cs

-- Every handler fits its events, and the count of pending events is right.
pub record IsValid (m : IoManager) : Type 0 where
  pub contexts_ok : All ContextOk m.contexts
  pub counted : m.pending ≡ total m.contexts
  pub few : length m.contexts ≤ 2 ^ 32

pub total-le : (cs : List FdContext) → total cs ≤ 2 * length cs
unfolding total
total-le [] = omega arith
total-le (c ∷ cs) = ground (arith, total-le cs)

pub total-set :
    (cs : List FdContext) (i : ℕ) (c d : FdContext)
    → get_elem? cs i ≡ some c
    → total (set cs i d) + weight c ≡ total cs + weight d
unfolding total
total-set [] i c d e = cc
total-set (x ∷ cs) zero c d e = ground arith
total-set (x ∷ cs) (suc i) c d e = omega (arith, total-set cs i c d e)

pub All-set :
    (P : FdContext → Type 0) (cs : List FdContext) (i : ℕ) (d : FdContext)
    → All P cs
    → P d
    → All P (set cs i d)
All-set P [] i d a p = tt
All-set P (x ∷ cs) zero d a p = (p, a.1)
All-set P (x ∷ cs) (suc i) d a p = (a.0, All-set P cs i d a.1 p)

pub All-get :
    (P : FdContext → Type 0) (cs : List FdContext) (i : ℕ) (c : FdContext)
    → All P cs
    → get_elem? cs i ≡ some c
    → P c
All-get P [] i c a e = absurd (cc)
All-get P (x ∷ cs) zero c a e = let e' : x ≡ c = cc in subst P e' a.0
All-get P (x ∷ cs) (suc i) c a e = All-get P cs i c a.1 e

fresh_lem :
    (i n : ℕ)
    → (length (fresh_contexts i n) ≡ n)
      × (total (fresh_contexts i n) ≡ 0)
      × All ContextOk (fresh_contexts i n)
unfolding fresh_contexts total
fresh_lem i zero = (refl, refl, tt)
fresh_lem i (suc n) =
    let rest = fresh_lem (i + 1) n in
    (ap suc rest.0, omega (arith, rest.1), (record { reads = refl; writes = refl }, rest.2))

resize_lem :
    (i n : ℕ) (cs : List FdContext)
    → length cs ≤ n
    → All ContextOk cs
    → (length (resize_from i n cs) ≡ n)
      × (total (resize_from i n cs) ≡ total cs)
      × All ContextOk (resize_from i n cs)
unfolding resize_from total
resize_lem i zero [] h a = (refl, refl, tt)
resize_lem i zero (c ∷ cs) h a = absurd (omega arith)
resize_lem i (suc n) [] h a = fresh_lem i (suc n)
resize_lem i (suc n) (c ∷ cs) h a =
    let rest = resize_lem (i + 1) n cs (omega arith) a.1 in
    (ap suc rest.0, ap (◌+◌ (weight c)) rest.1, (a.0, rest.2))

-- Making room doubles the list where the descriptor lies behind its end, and keeps what is in it.
pub make_room_lem :
    (fd : ℕ) (cs : List FdContext)
    → All ContextOk cs
    → (length (make_room fd cs) ≡ (if ltb fd (length cs) then length cs else length cs * 2))
      × (total (make_room fd cs) ≡ total cs)
      × All ContextOk (make_room fd cs)
unfolding make_room context_list_resize
make_room_lem fd cs a = elim (Bool-cases (ltb fd (length cs))) [
  | inl e ↦ rw e (refl, refl, a)
  | inr e ↦ rw e (resize_lem 0 (length cs * 2) cs (omega arith) a)
]

-- A state in which one context of a valid one was replaced and the count adjusted.
pub replaced-IsValid :
    (m m' : IoManager) (fd : ℕ) (c d : FdContext)
    → IsValid m
    → get_elem? m.contexts fd ≡ some c
    → ContextOk d
    → m'.contexts ≡ set m.contexts fd d
    → m'.pending + weight c ≡ m.pending + weight d
    → IsValid m'
replaced-IsValid m m' fd c d v e o s n = record {
  contexts_ok = rw s (All-set ContextOk m.contexts fd d v.contexts_ok o);
  counted = rw s (omega (arith, n, v.counted, total-set m.contexts fd c d e));
  few = rw s (omega (arith, length-set m.contexts fd d, v.few));
}

-- The count is far from the end of its range, and as large as any context's weight.
pub pending-bound :
    (m : IoManager) (fd : ℕ) (c : FdContext)
    → IsValid m
    → get_elem? m.contexts fd ≡ some c
    → (m.pending ≤ 2 ^ 33) × (weight c ≤ m.pending)
pending-bound m fd c v e = (
  omega (arith, total-le m.contexts, v.counted, v.few),
  omega (arith, total-set m.contexts fd c (fresh_context fd) e, v.counted),
)

-- With an event pending the count goes down by one, and no further than 0.
pub down-pending : (n : ℕ) → n ≤ 2 ^ 33 → 1 ≤ n → down n ≡ n - 1
down-pending n h p = omega arith
