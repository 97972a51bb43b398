-- ===== src/Planner/History/Seeds.antt =====
-- packages/planner/src/history.rs: a plan that is bound to a run, and what a checkpoint gives back.
use mona_agent_core.Prelude.{
  ◌≡◌, refl, sym, ap, ◌∙◌, false, Option, none, some, List, [], ◌∷◌, arith, ltb, ==_iff, All,
}
use mona_agent_core.Prelude.Strings.{Str, len}
use mona_agent_core.Prelude.Maps.{Map, get, get-insert_same}
use mona_agent_core.Api.Error.{ok, refuse, ok_or, >>=-eq-ok, ok_or-eq-ok}
use mona_agent_core.Api.Message.{ToolResult}
use mona_agent_core.Api.Checkpoint.{RunCheckpoint, checkpoint_version}
use mona_agent_core.Planner.State.{PlanSnapshot, max_plan_bytes, over_limit, invalid}
use mona_agent_core.Planner.State.Plans.{validate-size}
use mona_agent_core.Planner.History.{
  PlanJson, Reads, plan_seed_key, snapshot_bytes, check, seed_too_large, bind_state, read_seed,
  seed, calls, read_result, Found, keep_read, collect, settle_on, confirmed, recover_checkpoint,
}

same_map : {m n : Map Str} → ok m ≡ ok n → m ≡ n
same_map h = cc

module _ {V : Type 0} (json : PlanJson V) where
  -- A valid plan has a text that fits.
  text_fits :
      (state : PlanSnapshot) (text : Str)
      → check json state ≡ ok tt
      → json.snapshot_text state ≡ some text
      → ltb max_plan_bytes (len text) ≡ false
  unfolding over_limit
  text_fits state text h k = from (validate-size (snapshot_bytes json) state h)
    where
      from :
          over_limit max_plan_bytes (snapshot_bytes json state) ≡ false
          → ltb max_plan_bytes (len text) ≡ false
      from q = ground (arith, k, q)

  read_seed-text :
      Reads json
      → (state : PlanSnapshot) (text : Str) → check json state ≡ ok tt
      → json.snapshot_text state ≡ some text
      → read_seed json (some text) ≡ ok (some state)
  unfolding read_seed
  read_seed-text reads state text h k =
      rw (text_fits state text h k, reads.written state text k, h) refl

  pub bind_state-seed :
      Reads json
      → (metadata m' : Map Str) (state : PlanSnapshot) → bind_state json metadata state ≡ ok m'
      → seed json m' ≡ ok (some state)
  unfolding bind_state seed
  bind_state-seed reads metadata m' state h =
      let (_, valid, h1) = >>=-eq-ok (check json state) _ h in
      let (text, encoded, h2) =
        >>=-eq-ok (ok_or (json.snapshot_text state) (invalid "plan encoding failed")) _ h1 in
      let (_, _, h3) =
        >>=-eq-ok
          (refuse (seed_too_large metadata text)
            (invalid "plan seed does not fit the Run metadata budget"))
          _ h2 in
      let at_key =
        ap (get plan_seed_key) (sym (same_map h3)) ∙ get-insert_same plan_seed_key text metadata in
      ap (read_seed json) at_key ∙ read_seed-text reads state text valid (ok_or-eq-ok _ _ encoded)

  skipped :
      (names : Map Str) (run_id : Str) (base : Option PlanSnapshot) (results : List (ToolResult V))
      (found : Found)
      → All (λ r. read_result json names r ≡ ok none) results
      → collect json names run_id base results found ≡ ok found
  unfolding collect keep_read
  skipped names run_id base [] found h = refl
  skipped names run_id base (r ∷ rs) found h = rw h.0 (skipped names run_id base rs found h.1)

module _ {V F : Type 0} (json : PlanJson V) where
  -- A plan that was bound to the metadata of a run is what every checkpoint of that run gives back, as
  -- long as it holds no confirmed result of a plan tool; snapshots are read as they were written.
  pub bind_state-recover :
      Reads json
      → (metadata : Map Str) (state : PlanSnapshot) (cp : RunCheckpoint V F)
      → bind_state json metadata state ≡ ok cp.metadata
      → cp.schema_version ≡ checkpoint_version
      → All (λ r. read_result json (calls cp.transcript) r ≡ ok none) (confirmed cp)
      → recover_checkpoint json cp ≡ ok (some state)
  unfolding recover_checkpoint settle_on
  bind_state-recover reads metadata state cp h v none_confirmed =
      rw
        (
          (==_iff cp.schema_version checkpoint_version).1 v,
          bind_state-seed json reads metadata cp.metadata state h,
          skipped json (calls cp.transcript) cp.run_id (some state) (confirmed cp)
              (record { latest = some state; current = [] }) none_confirmed,
        )
        refl
