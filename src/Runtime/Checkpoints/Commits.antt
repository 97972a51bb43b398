-- ===== src/Runtime/Checkpoints/Commits.antt =====
-- What the sink of a run receives.
use mathlib.Core.Bool.{true≢false}
use mona_agent_core.Prelude.{
  ℕ, zero, suc, ◌+◌, ◌≤◌, ◌<◌, ◌≡◌, refl, sym, ap, ◌∙◌, ◌≢◌, Bool, true, false, not, ◌||◌, Option,
  none, some, List, [], ◌∷◌, map, arith, if◌then◌else◌, is_some, length, usize_max, subst, ◌⊎◌, inl,
  inr,
}
use mona_agent_core.Api.Error.{is_ok, AgentError, Result, ok, err}
use mona_agent_core.Api.Task.{wrapping_add}
use mona_agent_core.Api.Checkpoint.{RunCheckpoint}
use mona_agent_core.Runtime.Checkpoints.{
  saves_before_model, saves_input, saves_after_model, saves_intent, saves_settled,
  saves_after_tools, saves_finish, phase_of, State, Surroundings, Written, Save, save, write,
  open_write, offer, latch, next, change,
}

-- n, n + 1, …: `k` numbers.
abbrev pub count_from : ℕ → ℕ → List ℕ
count_from n zero = []
count_from n (suc k) = n ∷ count_from (n + 1) k

abbrev cons_some {ℓ} : {A : Type ℓ} → Option A → List A → List A
cons_some none xs = xs
cons_some (some a) xs = a ∷ xs

module _ {V F : Type 0} (checkpoint_bytes : RunCheckpoint V F → Option ℕ) (limit : ℕ) where
  -- The snapshots that a sequence of writes commits, and the state that it leaves.
  unfoldable pub run :
      State V F → List (Save V × Surroundings) → List (RunCheckpoint V F) × State V F
  run s [] = ([], s)
  run s ((o, env) ∷ os) =
      let w = save checkpoint_bytes limit s o env in
      let rest = run w.state os in (cons_some w.committed rest.0, rest.1)

  -- No sink is configured, or a write has failed.
  abbrev silent : State V F → Bool
  silent s = not s.status.configured || is_some s.status.error

  -- What one write can do.
  data Outcome (s : State V F) : Written V F → Type 0 where
    skipped :
        (r : Result (Unit {0}))
        → silent s ≡ true
        → Outcome s (record { state = s; result = r; committed = none })
    oversized :
        (c : RunCheckpoint V F) (e : AgentError)
        → silent s ≡ false
        → c.revision ≡ wrapping_add s.current.revision 1
        → Outcome s (record { state = latch s c e; result = err e; committed = none })
    rejected :
        (c : RunCheckpoint V F) (e : AgentError)
        → silent s ≡ false
        → c.revision ≡ wrapping_add s.current.revision 1
        → Outcome s (record { state = latch s c e; result = err e; committed = some c })
    committed :
        (c : RunCheckpoint V F)
        → silent s ≡ false
        → c.revision ≡ wrapping_add s.current.revision 1
        → Outcome s (record {
          state = record {
            current = c;
            status = record s.status { last_acknowledged_revision = some c.revision };
          };
          result = ok tt;
          committed = some c;
        })

  change-revision : (o : Save V) (c : RunCheckpoint V F) → (change o c).revision ≡ c.revision
  unfolding change
  change-revision (saves_before_model step transcript tools) c = refl
  change-revision (saves_input transcript) c = refl
  change-revision (saves_after_model transcript calls) c = refl
  change-revision (saves_intent call_id) c = refl
  change-revision (saves_settled result) c = refl
  change-revision (saves_after_tools transcript) c = refl
  change-revision (saves_finish transcript status e) c = refl

  offer-Outcome :
      (s : State V F) (c : RunCheckpoint V F) (large : Bool) (saved : Result (Unit {0}))
      → silent s ≡ false
      → c.revision ≡ wrapping_add s.current.revision 1
      → Outcome s (offer s c large saved)
  unfolding offer
  offer-Outcome s c true saved h e = oversized c _ h e
  offer-Outcome s c false (ok u) h e = committed c h e
  offer-Outcome s c false (err x) h e = rejected c _ h e

  written :
      (s : State V F) (o : Save V) (env : Surroundings) (b : Bool) (e : Option AgentError)
      → s.status.configured ≡ b
      → s.status.error ≡ e
      → Outcome s (
          if b
          then open_write checkpoint_bytes limit s (phase_of o) (change o) env e
          else record { state = s; result = ok tt; committed = none })
  unfolding open_write next
  written s o env false e configured latched = skipped (ok tt) (ground (arith, configured))
  written s o env true (some e) configured latched = skipped (err e) (ground (arith, latched))
  written s o env true none configured latched =
      offer-Outcome s (next s (phase_of o) (change o) env.accounting) _ env.saved
        (ground (arith, configured, latched))
        (ap (λ n. wrapping_add n 1) (change-revision o s.current))

  save-Outcome :
      (s : State V F) (o : Save V) (env : Surroundings)
      → Outcome s (save checkpoint_bytes limit s o env)
  unfolding save write
  save-Outcome s o env = written s o env s.status.configured s.status.error refl refl

  silent-step :
      (s : State V F) (w : Written V F)
      → Outcome s w
      → silent s ≡ true
      → (w.committed ≡ none) × (w.state ≡ s)
  silent-step s _ (skipped r h) k = (refl, refl)
  silent-step s _ (oversized c e h r) k = cc (h, k)
  silent-step s _ (rejected c e h r) k = cc (h, k)
  silent-step s _ (committed c h r) k = cc (h, k)

  wrapping_add-lt : (n : ℕ) → n < usize_max → wrapping_add n 1 ≡ n + 1
  unfolding wrapping_add
  wrapping_add-lt n h = omega arith

  next_revision :
      (s : State V F) (w : Written V F)
      → Outcome s w
      → s.current.revision < usize_max
      → w.state.current.revision ≤ s.current.revision + 1
  unfolding latch
  next_revision s _ (skipped r h) small = omega arith
  next_revision s _ (oversized c e h r) small = omega (arith, r, wrapping_add-lt _ small)
  next_revision s _ (rejected c e h r) small = omega (arith, r, wrapping_add-lt _ small)
  next_revision s _ (committed c h r) small = omega (arith, r, wrapping_add-lt _ small)

  latch-silent :
      (s : State V F) (c : RunCheckpoint V F) (e : AgentError) → silent (latch s c e) ≡ true
  unfolding latch
  latch-silent s c e = ground arith

  -- A silent run commits nothing and changes nothing.
  run-silent :
      (s : State V F) (os : List (Save V × Surroundings))
      → silent s ≡ true
      → ((run s os).0 ≡ []) × ((run s os).1 ≡ s)
  unfolding run
  run-silent s [] h = (refl, refl)
  run-silent s ((o, env) ∷ os) h =
      let (none_committed, same) = silent-step s _ (save-Outcome s o env) h in
      let (empty, end) = run-silent s os h in
      (rw (none_committed, same) empty, ap (λ (z : State V F). (run z os).1) same ∙ end)

  one_revision :
      (n : ℕ) (c : RunCheckpoint V F) (xs : List (RunCheckpoint V F))
      → c.revision ≡ n
      → xs ≡ []
      → map (λ (c : RunCheckpoint V F). c.revision) (c ∷ xs) ≡ count_from n (length (c ∷ xs))
  one_revision n c xs e h = rw (h, e) refl

  revisions-step :
      (s : State V F) (w : Written V F) (os : List (Save V × Surroundings))
      → Outcome s w
      → s.current.revision < usize_max
      → map (λ (c : RunCheckpoint V F). c.revision) (run w.state os).0
        ≡ count_from (w.state.current.revision + 1) (length (run w.state os).0)
      → map (λ (c : RunCheckpoint V F). c.revision) (cons_some w.committed (run w.state os).0)
        ≡ count_from (s.current.revision + 1) (length (cons_some w.committed (run w.state os).0))
  revisions-step s _ os (skipped r h) small ih = ih
  revisions-step s _ os (oversized c e h r) small ih =
      rw (run-silent (latch s c e) os (latch-silent s c e)).0 refl
  revisions-step s _ os (rejected c e h r) small ih =
      one_revision _ c _ (r ∙ wrapping_add-lt _ small)
        (run-silent (latch s c e) os (latch-silent s c e)).0
  revisions-step s _ os (committed c h r) small ih =
      ap (λ xs. c.revision ∷ xs) ih
      ∙ ap
          (λ n.
            n
            ∷ count_from (n + 1) (
                length
                  (run
                    (record {
                      current = c;
                      status = record s.status { last_acknowledged_revision = some c.revision };
                    })
                    os).0))
          (r ∙ wrapping_add-lt _ small)

  -- The sink receives the revisions that follow the current one, each once and in order, whatever is
  -- written and however the sink answers, as long as they fit into 64 bits.
  pub run-revisions :
      (s : State V F) (os : List (Save V × Surroundings))
      → s.current.revision + length os ≤ usize_max
      → map (λ (c : RunCheckpoint V F). c.revision) (run s os).0
        ≡ count_from (s.current.revision + 1) (length (run s os).0)
  unfolding run
  run-revisions s [] fits = refl
  run-revisions s ((o, env) ∷ os) fits =
      let w = save checkpoint_bytes limit s o env in
      let out = save-Outcome s o env in
      let small : s.current.revision < usize_max = omega arith in
      revisions-step s w os out small
        (run-revisions w.state os (omega (arith, next_revision s w out small)))

  failure-silent :
      (s : State V F) (w : Written V F)
      → Outcome s w
      → silent s ≡ false
      → is_ok w.result ≡ false
      → silent w.state ≡ true
  failure-silent s _ (skipped r h) k failed = absurd (true≢false (sym h ∙ k))
  failure-silent s _ (oversized c e h r) k failed = latch-silent s c e
  failure-silent s _ (rejected c e h r) k failed = latch-silent s c e
  failure-silent s _ (committed c h r) k failed = cc failed

  -- With a sink and no earlier failure: after a write has failed, nothing more is committed and the state of the checkpoints stays as it is,
  -- whatever else the run writes.
  pub failed-final :
      (s : State V F) (o : Save V) (env : Surroundings) (os : List (Save V × Surroundings))
      → s.status.configured ≡ true
      → s.status.error ≡ none
      → is_ok (save checkpoint_bytes limit s o env).result ≡ false
      → ((run (save checkpoint_bytes limit s o env).state os).0 ≡ [])
        × ((run (save checkpoint_bytes limit s o env).state os).1
            ≡ (save checkpoint_bytes limit s o env).state)
  failed-final s o env os configured clean failed =
      run-silent (save checkpoint_bytes limit s o env).state os
        (failure-silent s _ (save-Outcome s o env) (ground (arith, configured, clean)) failed)

  -- The revision that the sink has acknowledged, if every write of the run has succeeded.
  pub record Acknowledged (s : State V F) : Type 0 where
    pub latest :
        s.status.error ≡ none
        → s.current.revision ≢ 0
        → s.status.configured ≡ true
        → s.status.last_acknowledged_revision ≡ some s.current.revision

  step-Acknowledged :
      (s : State V F) (w : Written V F) → Outcome s w → Acknowledged s → Acknowledged w.state
  unfolding latch
  step-Acknowledged s _ (skipped r h) a = a
  step-Acknowledged s _ (oversized c e h r) a = record { latest = λ clean. cc clean }
  step-Acknowledged s _ (rejected c e h r) a = record { latest = λ clean. cc clean }
  step-Acknowledged s _ (committed c h r) a = record { latest = λ clean moved configured. refl }

  -- While no write has failed, the last acknowledged revision is that of the last checkpoint, if
  -- it was so at the start.
  pub run-Acknowledged :
      (s : State V F) (os : List (Save V × Surroundings))
      → Acknowledged s
      → Acknowledged (run s os).1
  unfolding run
  run-Acknowledged s [] a = a
  run-Acknowledged s ((o, env) ∷ os) a =
      run-Acknowledged (save checkpoint_bytes limit s o env).state os
        (step-Acknowledged s _ (save-Outcome s o env) a)

  -- What a write that succeeded has left: nothing was to be written, or its checkpoint is acknowledged.
  pub record Acked (s : State V F) (o : Save V) (env : Surroundings) (w : Written V F)
      : Type 0 where
    pub sent : w.committed ≡ some (next s (phase_of o) (change o) env.accounting)
    pub acknowledged :
        w.state.status.last_acknowledged_revision
        ≡ some (next s (phase_of o) (change o) env.accounting).revision

  offer-Acked :
      (s : State V F) (o : Save V) (env : Surroundings) (large : Bool) (saved : Result (Unit {0}))
      → (offer s (next s (phase_of o) (change o) env.accounting) large saved).result ≡ ok tt
      → Acked s o env (offer s (next s (phase_of o) (change o) env.accounting) large saved)
  unfolding offer
  offer-Acked s o env true saved q = absurd cc
  offer-Acked s o env false (ok u) q = record { sent = refl; acknowledged = refl }
  offer-Acked s o env false (err x) q = absurd cc

  written-Acked :
      (s : State V F) (o : Save V) (env : Surroundings) (b : Bool) (e : Option AgentError)
      {w : Written V F}
      → w ≡ (
          if b
          then open_write checkpoint_bytes limit s (phase_of o) (change o) env e
          else record { state = s; result = ok tt; committed = none })
      → s.status.configured ≡ b
      → w.result ≡ ok tt
      → (s.status.configured ≡ false) ⊎ Acked s o env w
  unfolding open_write
  written-Acked s o env false e p c q = inl c
  written-Acked s o env true (some e) p c q = absurd cc
  written-Acked s o env true none p c q = inr (
      subst (Acked s o env) (sym p)
        (offer-Acked s o env _ env.saved (ap (λ (x : Written V F). x.result) (sym p) ∙ q)))

  pub save-Acked :
      (s : State V F) (o : Save V) (env : Surroundings)
      → (save checkpoint_bytes limit s o env).result ≡ ok tt
      → (s.status.configured ≡ false) ⊎ Acked s o env (save checkpoint_bytes limit s o env)
  unfolding save write
  save-Acked s o env q = written-Acked s o env s.status.configured s.status.error refl refl q
