-- ===== src/Runtime/Admission/Capacity.antt =====
-- packages/runtime/src/engine.rs: how many runs a host has, and when its registry may go.
use mathlib.Core.Bool.{true≢false}
use mona_agent_core.Prelude.{
  ℕ, ◌+◌, ◌≤◌, ◌≡◌, refl, sym, ◌∙◌, ap, subst, ◌⊎◌, inl, inr, Bool, true, false, Option, none, List,
  [], ◌∷◌, arith, leb, is_some, is_empty, if◌then◌else◌, length,
}
use mona_agent_core.Prelude.Strings.{Str, str_discrete}
use mona_agent_core.Prelude.Sets.{insert, remove}
use mona_agent_core.Api.Error.{
  ErrorCode, Result, ok, err, error, refuse, ok_or, >>=-eq-ok, refuse-eq-ok, ok_or-eq-ok,
}
use mona_agent_core.Api.Serializer.{Serializer}
use mona_agent_core.Runtime.History.{History}
use mona_agent_core.Runtime.Admission.{
  RunRequest, Host, Surroundings, claim, exceeds_registry, drop_lease, cancel_all, drain, revoke,
  check_request, launch, enter, admit, start,
}

length-remove : (a : Str) (xs : List Str) → length (remove str_discrete a xs) ≤ length xs
unfolding remove
length-remove a [] = omega arith
length-remove a (x ∷ xs) = ground (arith, length-remove a xs)

length-insert : (a : Str) (xs : List Str) → length (insert str_discrete a xs) ≤ length xs + 1
unfolding insert
length-insert a xs = ground arith

same_host : {g h : Host} → ok g ≡ ok h → g ≡ h
same_host h = cc

-- The steps of a host. A close closes the host first, then sees that no run is left, and then revokes
-- the registry; other steps may come between these.
pub data Step {V : Type 0} (F : Type 0) (json : Serializer V) : Host → Host → Type 0 where
  starts :
      (host : Host) (request : RunRequest V F) (env : Surroundings)
      → Step F json host (start json host request env).0
  ends : (host : Host) (id : Str) → Step F json host (drop_lease id host)
  closes : (host : Host) → Step F json host (cancel_all host)
  drains : (host : Host) → host.closed ≡ true → Step F json host (drain host)
  revokes : (host : Host) → Step F json host (revoke host)

pub data Reach {V : Type 0} (F : Type 0) (json : Serializer V) (first : Host) : Host → Type 0 where
  here : Reach F json first first
  next : {h g : Host} → Reach F json first h → Step F json h g → Reach F json first g

-- No more runs than configured; as long as a run has its lease, the registry is there and no close
-- takes it for drained.
pub record IsHosted (limit : ℕ) (host : Host) : Type 0 where
  pub same_limit : host.max_concurrent_runs ≡ limit
  pub within : length host.runs ≤ limit
  pub serving :
      ((is_some host.registry ≡ true) × (host.drained ≡ false))
      ⊎ ((host.runs ≡ []) × (host.closed ≡ true))

module _ (limit : ℕ) where
  drop_lease-IsHosted :
      (id : Str) (host : Host) → IsHosted limit host → IsHosted limit (drop_lease id host)
  unfolding drop_lease remove
  drop_lease-IsHosted id host ok' = record {
    same_limit = ok'.same_limit;
    within = omega (arith, length-remove id host.runs, ok'.within);
    serving = elim ok'.serving [
      | inl r ↦ inl r
      | inr e ↦ inr (ap (remove str_discrete id) e.0, e.1)
    ];
  }

  claim-IsHosted :
      (host claimed : Host) (allowed : Option (List Str)) (id : Str)
      → IsHosted limit host
      → claim host allowed id ≡ ok claimed
      → IsHosted limit claimed
  unfolding claim
  claim-IsHosted host claimed allowed id ok' q =
      let (_, c, q1) =
        >>=-eq-ok (refuse host.closed (error ErrorCode.closed "host is closing")) _ q in
      let (_, l, q2) =
        >>=-eq-ok
          (refuse (leb host.max_concurrent_runs (length host.runs))
            (error ErrorCode.limit "host concurrent-run limit reached"))
          _ q1 in
      let (tools, t, q3) =
        >>=-eq-ok (ok_or host.registry (error ErrorCode.closed "host registry has been revoked")) _
          q2 in
      let (_, _, q4) =
        >>=-eq-ok
          (refuse (exceeds_registry allowed tools)
            (error ErrorCode.configuration "run tool ceiling contains an unregistered tool"))
          _ q3 in
      let room = refuse-eq-ok (leb host.max_concurrent_runs (length host.runs)) _ l in
      let found = ok_or-eq-ok host.registry _ t in
      subst (IsHosted limit) (same_host q4) (record {
        same_limit = ok'.same_limit;
        within = ground (arith, length-insert id host.runs, room, ok'.same_limit);
        serving = elim ok'.serving [
          | inl r ↦ inl (ap is_some found, r.1)
          | inr e ↦ absurd (true≢false (sym e.1 ∙ refuse-eq-ok host.closed _ c))
        ];
      })

  drain-IsHosted :
      (host : Host) → host.closed ≡ true → IsHosted limit host → IsHosted limit (drain host)
  unfolding drain
  drain-IsHosted host c ok' = by_runs (is_empty host.runs) refl
    where
      none_left : (rs : List Str) → is_empty rs ≡ true → rs ≡ []
      none_left [] q = refl
      none_left (r ∷ rs) q = cc

      by_runs :
          (b : Bool)
          → is_empty host.runs ≡ b
          → IsHosted limit (if b then record host { drained = true } else host)
      by_runs true q = record {
        same_limit = ok'.same_limit;
        within = ok'.within;
        serving = inr (none_left host.runs q, c);
      }
      by_runs false q = ok'

  revoke-IsHosted : (host : Host) → IsHosted limit host → IsHosted limit (revoke host)
  unfolding revoke
  revoke-IsHosted host ok' = by_drained host.drained refl ok'.serving
    where
      by_drained :
          (b : Bool)
          → host.drained ≡ b
          → ((is_some host.registry ≡ true) × (host.drained ≡ false))
            ⊎ ((host.runs ≡ []) × (host.closed ≡ true))
          → IsHosted limit (if b then record host { registry = none } else host)
      by_drained true q (inl r) = absurd (true≢false (sym q ∙ r.1))
      by_drained true q (inr e) = record {
        same_limit = ok'.same_limit;
        within = ok'.within;
        serving = inr e;
      }
      by_drained false q s = ok'

  cancel_all-IsHosted : (host : Host) → IsHosted limit host → IsHosted limit (cancel_all host)
  unfolding cancel_all
  cancel_all-IsHosted host ok' = record {
    same_limit = ok'.same_limit;
    within = ok'.within;
    serving = elim ok'.serving [ inl r ↦ inl r | inr e ↦ inr (e.0, refl) ];
  }

module _ {V F : Type 0} (json : Serializer V) (limit : ℕ) where
  launch-IsHosted :
      (host : Host) (request : RunRequest V F) (env : Surroundings) (h : History V)
      (p : Result (Unit {0})) (n : Result ℕ)
      → IsHosted limit host
      → IsHosted limit (launch json host request env h p n).0
  unfolding launch
  launch-IsHosted host request env h (err e) n ok' = drop_lease-IsHosted limit env.id host ok'
  launch-IsHosted host request env h (ok u) (err e) ok' = drop_lease-IsHosted limit env.id host ok'
  launch-IsHosted host request env h (ok u) (ok n) ok' = ok'

  admit-IsHosted :
      (host : Host) (request : RunRequest V F) (env : Surroundings) (c : Result (History V))
      → IsHosted limit host
      → IsHosted limit (admit json host request env c).0
  unfolding admit enter
  admit-IsHosted host request env (err e) ok' = ok'
  admit-IsHosted host request env (ok h) ok' = from (claim host request.allowed_tools env.id) refl
    where
      from :
          (r : Result Host)
          → claim host request.allowed_tools env.id ≡ r
          → IsHosted limit (enter json host request env h r).0
      from (err e) q = ok'
      from (ok claimed) q =
          launch-IsHosted claimed request env h env.provider (env.request_overhead [])
            (claim-IsHosted limit host claimed request.allowed_tools env.id ok' q)

  Step-IsHosted : {h g : Host} → Step F json h g → IsHosted limit h → IsHosted limit g
  unfolding start
  Step-IsHosted (starts host request env) ok' =
      admit-IsHosted host request env (check_request json request env) ok'
  Step-IsHosted (ends host id) ok' = drop_lease-IsHosted limit id host ok'
  Step-IsHosted (closes host) ok' = cancel_all-IsHosted limit host ok'
  Step-IsHosted (drains host c) ok' = drain-IsHosted limit host c ok'
  Step-IsHosted (revokes host) ok' = revoke-IsHosted limit host ok'

  -- In whatever order runs start and end and closes come forward, from a host that is so at first: it
  -- has at most the configured number of runs, and as long as a run has its lease, the registry is
  -- there and no close takes the host for drained.
  pub Reach-IsHosted :
      (first : Host) {host : Host}
      → IsHosted limit first
      → Reach F json first host
      → IsHosted limit host
  Reach-IsHosted first ok' here = ok'
  Reach-IsHosted first ok' (next r s) = Step-IsHosted s (Reach-IsHosted first ok' r)
