-- ===== src/Planner/History/Recovery.antt =====
-- packages/planner/src/history.rs: recover_checkpoint gives the newest confirmed state of a plan.
use mona_agent_core.Prelude.{
  ℕ, ◌≡◌, refl, sym, subst, ◌≢◌, ◌⊎◌, inl, inr, true, not, Option, none, some, List, [], ◌∷◌, arith,
  ◌==◌, All, Any, is_some,
}
use mona_agent_core.Prelude.Strings.{Str}
use mona_agent_core.Api.Error.{Result, ok, err, refuse, >>=-eq-ok, refuse-eq-ok}
use mona_agent_core.Api.Message.{ToolResult}
use mona_agent_core.Api.Checkpoint.{RunCheckpoint, checkpoint_version}
use mona_agent_core.Planner.State.{PlanSnapshot, invalid}
use mona_agent_core.Planner.History.{
  PlanJson, PlanRecord, check, seed, calls, read_result, Found, collect, succeed, settle_on,
  confirmed, recover_checkpoint,
}
use mona_agent_core.Planner.History.Confirmed.{Reported, IsConfirmed}
use mona_agent_core.Planner.History.Results.{Any-confirmed, All-confirmed}
use mona_agent_core.Planner.History.Reported.{
  Gives, read_result-IsConfirmed, IsConfirmed-read_result,
}
use mona_agent_core.Planner.History.Revisions.{Behind, settle_on-Behind, settle_on-at}
use mona_agent_core.Planner.History.Newest.{Grows, MetRead, collect-Grows}
use mona_agent_core.Planner.History.Origins.{
  Confirms, OfOption, OfRead, settle_on-OfOption, collect-AllKept, read_result-valid, seed-valid,
}

-- What a read result is, beside what was recovered: nothing of a plan, or of another run, or not newer.
abbrev pub Seen : Str → Option PlanSnapshot → Result (Option PlanRecord) → Type 0
Seen run_id p (err e) = ⊥
Seen run_id p (ok none) = Unit
Seen run_id p (ok (some r)) = ((r.run_id ≢ run_id) × (is_some p ≡ true)) ⊎ Behind p r.state

abbrev pub AfterSeed : Option PlanSnapshot → Result (Option PlanSnapshot) → Type 0
AfterSeed p (err e) = ⊥
AfterSeed p (ok none) = Unit
AfterSeed p (ok (some base)) = Behind p base

module _ {V F : Type 0} (json : PlanJson V) (cp : RunCheckpoint V F) where
  -- A valid state that is the seed or is confirmed by a reported result.
  abbrev pub Known : PlanSnapshot → Type 0
  Known s =
      (check json s ≡ ok tt)
      × ((seed json cp.metadata ≡ ok (some s))
          ⊎ ((x : ToolResult V) × (r : PlanRecord) × Reported cp x
              × IsConfirmed json cp.transcript x r
              × (r.state ≡ s)))

  pub record Recovered (p : Option PlanSnapshot) : Type 0 where
    pub version : cp.schema_version ≡ checkpoint_version
    pub after_seed : AfterSeed p (seed json cp.metadata)
    pub newest :
        (x : ToolResult V) (r : PlanRecord)
        → Reported cp x
        → IsConfirmed json cp.transcript x r
        → ((r.run_id ≢ cp.run_id) × (is_some p ≡ true)) ⊎ Behind p r.state
    pub known : OfOption Known p

  Confirms-record :
      (o : Result (Option PlanRecord)) (s : PlanSnapshot)
      → Confirms o s
      → (r : PlanRecord) × (o ≡ ok (some r)) × (r.state ≡ s)
  Confirms-record (err e) s c = absurd c
  Confirms-record (ok none) s c = absurd c
  Confirms-record (ok (some r)) s c = (r, refl, c)

  -- A state that is read from a result is known.
  read-Known :
      (s : PlanSnapshot)
      → check json s ≡ ok tt
      → Any (λ x. Confirms (read_result json (calls cp.transcript) x) s) (confirmed cp)
      → Known s
  read-Known s valid a =
      let (x, reported, c) =
        Any-confirmed (λ x. Confirms (read_result json (calls cp.transcript) x) s) cp a in
      let (r, reads, same) = Confirms-record (read_result json (calls cp.transcript) x) s c in
      (valid, inr (x, r, reported, read_result-IsConfirmed json cp.transcript x r reads, same))

  Seen-newest :
      (p : Option PlanSnapshot) (r : PlanRecord) (o : Result (Option PlanRecord))
      → Seen cp.run_id p o
      → Gives r o
      → ((r.run_id ≢ cp.run_id) × (is_some p ≡ true)) ⊎ Behind p r.state
  Seen-newest p r (err e) s g = absurd s
  Seen-newest p r (ok none) s g = absurd g
  Seen-newest p r (ok (some q)) s g =
      subst (λ (z : PlanRecord). ((z.run_id ≢ cp.run_id) × (is_some p ≡ true)) ⊎ Behind p z.state) g
        s

  OfRead-Known :
      (o : Result (Option PlanRecord))
      → ((s : PlanSnapshot) → Confirms o s → Known s)
      → OfRead Known o
  OfRead-Known (err e) k = tt
  OfRead-Known (ok none) k = tt
  OfRead-Known (ok (some r)) k = k r.state refl

  -- Every confirmed state is known.
  All-Known :
      (xs : List (ToolResult V))
      → ((s : PlanSnapshot)
          → Any (λ x. Confirms (read_result json (calls cp.transcript) x) s) xs
          → Any (λ x. Confirms (read_result json (calls cp.transcript) x) s) (confirmed cp))
      → All (λ x. OfRead Known (read_result json (calls cp.transcript) x)) xs
  All-Known [] k = tt
  All-Known (x ∷ xs) k = (
    OfRead-Known (read_result json (calls cp.transcript) x)
        (λ s c. read-Known s (read_result-valid json (calls cp.transcript) x s c) (k s (inl c))),
    All-Known xs (λ s a. k s (inr a)),
  )

  seed-Known : (base : Option PlanSnapshot) → seed json cp.metadata ≡ ok base → OfOption Known base
  seed-Known none h = tt
  seed-Known (some s) h = (seed-valid json cp.metadata s h, inl h)

  module _ (p base : Option PlanSnapshot) (last : Found)
      (settled : settle_on last.current last.latest ≡ ok p) where
    settle_on-some :
        (es : List (ℕ × PlanSnapshot)) (latest : Option PlanSnapshot)
        → settle_on es latest ≡ ok p
        → is_some latest ≡ true
        → is_some p ≡ true
    unfolding settle_on
    settle_on-some [] latest h k = ground arith
    settle_on-some (e ∷ es) latest h k =
        let (_, _, rest) = >>=-eq-ok (succeed latest e.1) _ h in
        settle_on-some es (some e.1) rest refl

    Met-Seen :
        Grows cp.run_id base (record { latest = base; current = [] }) last
        → (o : Result (Option PlanRecord)) → MetRead cp.run_id base last o
        → Seen cp.run_id p o
    Met-Seen g (err e) m = m
    Met-Seen g (ok none) m = tt
    Met-Seen g (ok (some r)) (inl a) =
        inr (settle_on-at p last.current last.latest settled r.state.revision r.state a)
    Met-Seen g (ok (some r)) (inr (q, inl b)) =
        inl (q, settle_on-some last.current last.latest settled (g.stays b))
    Met-Seen g (ok (some r)) (inr (q, inr l)) =
        inl (q, settle_on-some last.current last.latest settled l)

    All-Seen :
        Grows cp.run_id base (record { latest = base; current = [] }) last
        → (xs : List (ToolResult V))
        → All (λ x. MetRead cp.run_id base last (read_result json (calls cp.transcript) x)) xs
        → All (λ x. Seen cp.run_id p (read_result json (calls cp.transcript) x)) xs
    All-Seen g [] m = tt
    All-Seen g (x ∷ xs) m =
        (Met-Seen g (read_result json (calls cp.transcript) x) m.0, All-Seen g xs m.1)

    seed-AfterSeed :
        (b : Option PlanSnapshot) → (is_some b ≡ true → last.latest ≡ b) → AfterSeed p (ok b)
    seed-AfterSeed none k = tt
    seed-AfterSeed (some s) k =
        settle_on-Behind p last.current last.latest settled s (s, k refl, inr refl)

  -- What is recovered from a checkpoint of the current version is a valid state, which is the seed of
  -- the run or the state in a whole and successful result of a call of a plan tool, from the transcript
  -- or settled in the unfinished batch; it is the seed or newer, and each
  -- confirmed state of this run is the one that was recovered or has a lower revision. It is absent
  -- only if there is no seed and no confirmed state, of this run or of another.
  pub recover_checkpoint-Recovered :
      (p : Option PlanSnapshot) → recover_checkpoint json cp ≡ ok p → Recovered p
  unfolding recover_checkpoint
  recover_checkpoint-Recovered p h =
      let (_, v, h1) =
        >>=-eq-ok
          (refuse (not (cp.schema_version == checkpoint_version))
            (invalid "unsupported checkpoint version"))
          _ h in
      let (base, seeded, h2) = >>=-eq-ok (seed json cp.metadata) _ h1 in
      let (last, collected, settled) =
        >>=-eq-ok
          (collect json (calls cp.transcript) cp.run_id base (confirmed cp)
            (record { latest = base; current = [] }))
          _ h2 in
      let (grows, met) =
        collect-Grows cp.run_id base json (calls cp.transcript) (confirmed cp)
          (record { latest = base; current = [] }) last collected in
      let kept =
        collect-AllKept Known json (calls cp.transcript) cp.run_id base (confirmed cp)
          (record { latest = base; current = [] }) last (All-Known (confirmed cp) (λ s a. a))
          (seed-Known base seeded, tt) collected in
      record {
        version = ground (arith, refuse-eq-ok (not (cp.schema_version == checkpoint_version)) _ v);
        after_seed =
            subst (AfterSeed p) (sym seeded) (seed-AfterSeed p base last settled base grows.based);
        newest = λ x r reported c.
            Seen-newest p r (read_result json (calls cp.transcript) x)
              (All-confirmed (λ y. Seen cp.run_id p (read_result json (calls cp.transcript) y)) cp x
                (All-Seen p base last settled grows (confirmed cp) met) reported)
              (IsConfirmed-read_result json cp.transcript x r c);
        known = settle_on-OfOption Known last.current last.latest p kept.1 kept.0 settled;
      }
