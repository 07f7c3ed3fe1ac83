-- ===== src/IoManager/Both.antt =====
-- The two triggers of cancelAll and of onIdle.
use learn_server_concise.Base.{
  ℕ, ◌+◌, ◌^◌, ◌≤◌, ◌≡◌, refl, ◌∙◌, Bool, true, [], ◌∷◌, ◌++◌, none, if◌then◌else◌, Outcome, ◌>>=◌,
  Returns, arith, Bool-cases, inl, inr,
}
use learn_server_concise.Scheduler.{make_task}
use learn_server_concise.FdContext.{read_event, write_event, EventSet, FdContext, without}
use learn_server_concise.IoManager.{Kernel, IoManager, down, trigger_and_count}
use learn_server_concise.IoManager.Contexts.{ContextOk, one_if, weight}
use learn_server_concise.Base.{Returns-bind}
use learn_server_concise.IoManager.Triggers.{
  registered, dropped, Triggers, trigger_and_count-Triggers,
}

-- What the two triggers of cancelAll and onIdle leave, where `es` are the events wanted.
pub record TriggersBoth (es : EventSet) (c : FdContext) (m : IoManager) (r : FdContext × IoManager)
    : Type 0 where
  pub events : r.0.events ≡ without c.events es
  pub fits : ContextOk r.0
  pub contexts : r.1.contexts ≡ m.contexts
  pub pending : r.1.pending + weight c ≡ m.pending + weight r.0
  pub timers : r.1.timers ≡ m.timers
  pub tasks :
      r.1.scheduler.tasks
      ≡ m.scheduler.tasks
        ++ (if es.read then make_task (registered c.read_handler) none ∷ [] else [])
        ++ (if es.write then make_task (registered c.write_handler) none ∷ [] else [])

-- What is left of the context after two triggers.
abbrev after : Bool → Bool → FdContext → FdContext
after a b c =
    let c' = if a then dropped c read_event else c in if b then dropped c' write_event else c'

module _ (a b : Bool) (c : FdContext) (o : ContextOk c) (ha : a ≡ true → c.events.read ≡ true)
    (hb : b ≡ true → c.events.write ≡ true) where
  events_after :
      ((after a b c).events ≡ without c.events (record { read = a; write = b }))
      × ContextOk (after a b c)
      × (weight c ≡ weight (after a b c) + (one_if a + one_if b))
  events_after = elim (Bool-cases a) [
    | inl ea ↦ elim (Bool-cases b) [ inl eb ↦ ground arith | inr eb ↦ ground arith ]
    | inr ea ↦ elim (Bool-cases b) [ inl eb ↦ ground arith | inr eb ↦ ground arith ]
  ]

  pending_after :
      (n n' n'' : ℕ)
      → n ≤ 2 ^ 33
      → weight c ≤ n
      → n' ≡ (if a then down n else n)
      → n'' ≡ (if b then down n' else n')
      → n'' + weight c ≡ n + weight (after a b c)
  pending_after n n' n'' small enough e e' = elim (Bool-cases a) [
    | inl ea ↦ elim (Bool-cases b) [
      | inl eb ↦ ground (arith, events_after)
      | inr eb ↦ ground (arith, events_after)
    ]
    | inr ea ↦ elim (Bool-cases b) [
      | inl eb ↦ ground (arith, events_after)
      | inr eb ↦ ground (arith, events_after)
    ]
  ]

  first_after : ContextOk (if a then dropped c read_event else c)
  first_after = elim (Bool-cases a) [
    | inl e ↦ rw e (record { reads = refl; writes = o.writes })
    | inr e ↦ rw e o
  ]

  pub write_after : (if a then dropped c read_event else c).events.write ≡ c.events.write
  write_after = elim (Bool-cases a) [ inl e ↦ rw e refl | inr e ↦ rw e refl ]

  pub write_handler_after : (if a then dropped c read_event else c).write_handler ≡ c.write_handler
  write_handler_after = elim (Bool-cases a) [ inl e ↦ rw e refl | inr e ↦ rw e refl ]

  pub Triggers-both :
      (m : IoManager) (r r' : FdContext × IoManager)
      → m.pending ≤ 2 ^ 33
      → weight c ≤ m.pending
      → Triggers a read_event c m r
      → Triggers b write_event r.0 r.1 r'
      → TriggersBoth (record { read = a; write = b }) c m r'
  Triggers-both m r r' small enough t t' = record {
    events = rw last events_after.0;
    fits = rw last events_after.1;
    contexts = t'.contexts ∙ t.contexts;
    timers = t'.timers ∙ t.timers;
    pending = rw last (pending_after _ _ _ small enough t.pending t'.pending);
    tasks = t'.tasks ∙ rw (t.tasks, t.context, write_handler_after) refl;
  }
    where
      last : r'.0 ≡ after a b c
      last = cc

  -- The two triggers of cancelAll and onIdle, where the events wanted are waited for, before `f`.
  pub both_lem {ℓ} :
      {B : Type ℓ} (k : Kernel) (m : IoManager) (wanted : FdContext → Bool) (Q : B → Type 0)
      (f : FdContext × IoManager → Outcome B)
      → wanted (if a then dropped c read_event else c) ≡ b
      → m.pending ≤ 2 ^ 33
      → weight c ≤ m.pending
      → k.pipe_write ≡ true
      → ((r : FdContext × IoManager)
          → TriggersBoth (record { read = a; write = b }) c m r
          → Returns Q (f r))
      → Returns Q (
          trigger_and_count k a read_event c m >>= λ r.
          trigger_and_count k (wanted r.0) write_event r.0 r.1 >>= f)
  both_lem k m wanted Q f w small enough p rest =
      Returns-bind (Triggers a read_event c m) Q (trigger_and_count k a read_event c m) _
        (trigger_and_count-Triggers k a read_event c m o ha p)
        (λ r t.
          let w' : wanted r.0 ≡ b = rw t.context w in
          rw w' (
            Returns-bind (Triggers b write_event r.0 r.1) Q
              (trigger_and_count k b write_event r.0 r.1) f
              (trigger_and_count-Triggers k b write_event r.0 r.1 (rw t.context first_after)
                (λ e. rw t.context (write_after ∙ hb e)) p)
              (λ r' t'. rest r' (Triggers-both m r r' small enough t t'))))
