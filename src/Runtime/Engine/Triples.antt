-- ===== src/Runtime/Engine/Triples.antt =====
-- packages/runtime/src/engine.rs: what the operations of a run keep. A condition is about the canonical
-- history; beside it the requests made so far stay sound.
use mona_agent_core.Prelude.{
  ℕ, ◌-◌, ◌≡◌, refl, sym, ap, subst, ◌∙◌, Option, List, [], ◌∷◌, ◌++◌, append_assoc, append-nil,
  All,
}
use mona_agent_core.Prelude.Strings.{Str}
use mona_agent_core.Api.Error.{AgentError, Result, ok, err}
use mona_agent_core.Api.Message.{Message}
use mona_agent_core.Api.Serializer.{Serializer}
use mona_agent_core.Api.Checkpoint.{RunCheckpoint}
use mona_agent_core.Runtime.History.{
  History, ToolBudget, extend, check_append, admit_reply, new_budget, calls_of,
}
use mona_agent_core.Runtime.Checkpoints.{State, Surroundings, Save, save}
use mona_agent_core.Runtime.Projection.{RequestLimits}
use mona_agent_core.Runtime.Projection.Sound.{Valid, IsRequest}
use mona_agent_core.Runtime.Execution.{
  Execution, Request, Settings, Run, continue, transcript_now, attempt, ask, replaced, admitted,
}
use mona_agent_core.Runtime.Engine.{save_now, extend_now, admit_now}
use mona_agent_core.Api.Error as Errors
use mona_agent_core.Runtime.Repair.{extend-messages}

same_pair : {A B : Type 0} {a b : A × B} → ok a ≡ ok b → a ≡ b
same_pair h = cc

module _ {V : Type 0} where
  -- A history after some messages were appended.
  abbrev pub Appended : (History V → Type 0) → List (Message V) → History V → Type 0
  Appended P more h = (old : History V) × P old × (h.messages ≡ old.messages ++ more)

module _ {V : Type 0} (json : Serializer V) (limits : RequestLimits) where
  -- A request was made from a valid history that was only extended since, and can be sent.
  pub record IsSound (ms : List (Message V)) (r : Request V) : Type 0 where
    pub canonical : Valid json r.canonical
    pub later : List (Message V)
    pub extended : ms ≡ r.canonical ++ later
    pub sent : IsRequest json limits r.tools r.sources r.messages

  pub Sound-longer :
      (ms more : List (Message V)) (rs : List (Request V))
      → All (IsSound ms) rs
      → All (IsSound (ms ++ more)) rs
  Sound-longer ms more [] s = tt
  Sound-longer ms more (r ∷ rs) s = (
    record {
      canonical = s.0.canonical;
      later = s.0.later ++ more;
      extended =
          ap (λ (x : List (Message V)). x ++ more) s.0.extended
          ∙ append_assoc r.canonical s.0.later more;
      sent = s.0.sent;
    },
    Sound-longer ms more rs s.1,
  )

module _ {V F : Type 0} (json : Serializer V) (limits : RequestLimits) where
  abbrev pub Sound : Execution V F → Type 0
  Sound e = All (IsSound json limits e.transcript.messages) e.requests

  unfoldable pub Held : {A : Type 0} → (A → History V → Type 0) → Execution V F × Result A → Type 0
  Held Q (e, err x) = Sound e
  Held Q (e, ok a) = Sound e × Q a e.transcript

  abbrev pub Ensures :
      {A : Type 0} → (History V → Type 0) → Run V F A → (A → History V → Type 0) → Type 0
  Ensures P m Q = (e : Execution V F) → Sound e → P e.transcript → Held Q (m e)

  -- An operation, and what follows it.
  pub Held-continue :
      {A B : Type 0} (Q : A → History V → Type 0) (R : B → History V → Type 0)
      (x : Execution V F × Result A) (rest : A → Run V F B)
      → Held Q x
      → ((a : A) → Ensures (Q a) (rest a) R)
      → Held R (continue x rest)
  unfolding Held continue
  Held-continue Q R (e, err x) rest h k = h
  Held-continue Q R (e, ok a) rest h k = k a e h.0 h.1

  -- A result that is passed on by `?`.
  pub Held-lift :
      {A B : Type 0} (R : B → History V → Type 0) (e : Execution V F) (r : Result A)
      (rest : A → Run V F B)
      → Sound e
      → ((a : A) → r ≡ ok a → Held R (rest a e))
      → Held R (continue (e, r) rest)
  unfolding Held continue
  Held-lift R e (err x) rest s k = s
  Held-lift R e (ok a) rest s k = k a refl

  pub Held-now :
      {B : Type 0} (R : B → History V → Type 0) (e : Execution V F) (rest : History V → Run V F B)
      → Held R (rest e.transcript e)
      → Held R (continue (transcript_now e) rest)
  unfolding Held continue
  Held-now R e rest h = h

  pub Held-ok :
      {A : Type 0} (Q : A → History V → Type 0) (e : Execution V F) (a : A)
      → Sound e
      → Q a e.transcript
      → Held Q (e, ok a)
  unfolding Held
  Held-ok Q e a s p = (s, p)

  pub Held-err :
      {A : Type 0} (Q : A → History V → Type 0) (e : Execution V F) (x : AgentError)
      → Sound e
      → Held Q (e, err x)
  unfolding Held
  Held-err Q e x s = s

  pub Held-map :
      {A : Type 0} (Q R : A → History V → Type 0) (x : Execution V F × Result A)
      → Held Q x
      → ((a : A) (h : History V) → Q a h → R a h)
      → Held R x
  unfolding Held
  Held-map Q R (e, err x) h k = h
  Held-map Q R (e, ok a) h k = (h.0, k a e.transcript h.1)

  pub Held-end :
      {A : Type 0} (P : History V → Type 0) (e : Execution V F) (r : Result A)
      → Sound e
      → P e.transcript
      → Held (λ a. P) (e, r)
  unfolding Held
  Held-end P e (err x) s p = s
  Held-end P e (ok a) s p = (s, p)

  pub Ensures-ask :
      (P : History V → Type 0) (sources : List (Message V)) (tools : List Str)
      (ms : List (Message V))
      → IsRequest json limits tools sources ms
      → ((h : History V) → P h → Valid json h.messages)
      → Ensures P (ask sources tools ms) (λ u. P)
  unfolding ask Held
  Ensures-ask P sources tools ms r v e s p = (
    (
      record { canonical = v e.transcript p; later = []; extended = sym (append-nil _); sent = r },
      s,
    ),
    p,
  )

module _ {V F : Type 0} (json : Serializer V) (checkpoint_bytes : RunCheckpoint V F → Option ℕ)
    (settings : Settings) where
  pub Ensures-save :
      (P : History V → Type 0) (o : Save V) (env : Surroundings)
      → Ensures json settings.limits P (save_now json checkpoint_bytes settings o env) (λ u. P)
  unfolding save_now Held
  Ensures-save P o env e s p =
      by_result (save checkpoint_bytes settings.max_checkpoint_bytes e.checkpoints o env).state
        (save checkpoint_bytes settings.max_checkpoint_bytes e.checkpoints o env).result
    where
      by_result :
          (c : State V F) (r : Result (Unit {0}))
          → Held json settings.limits (λ u. P) (record e { checkpoints = c }, r)
      by_result c (err x) = s
      by_result c (ok u) = (s, p)

  pub Ensures-attempt_save :
      (P : History V → Type 0) (o : Save V) (env : Surroundings)
      → Ensures json settings.limits P
          (attempt (save_now json checkpoint_bytes settings o env))
          (λ r. P)
  unfolding save_now Held
  Ensures-attempt_save P o env e s p = (s, p)

  Sound-replaced :
      (P : History V → Type 0) (more : List (Message V)) (e : Execution V F) (h : History V)
      → Sound json settings.limits e
      → P e.transcript
      → h.messages ≡ e.transcript.messages ++ more
      → Sound json settings.limits (record e { transcript = h }) × Appended P more h
  Sound-replaced P more e h s p q = (
    subst (λ (ms : List (Message V)). All (IsSound json settings.limits ms) e.requests) (sym q)
        (Sound-longer json settings.limits e.transcript.messages more e.requests s),
    (e.transcript, p, q),
  )

  pub Ensures-extend :
      (P : History V → Type 0) (more : List (Message V))
      → Ensures json settings.limits P
          (extend_now json checkpoint_bytes settings more)
          (λ u. Appended P more)
  unfolding extend_now replaced Held
  Ensures-extend P more e s p = from (extend json e.transcript more) refl
    where
      from :
          (r : Result (History V))
          → extend json e.transcript more ≡ r
          → Held json settings.limits (λ u. Appended P more) (replaced e r)
      from (err x) q = s
      from (ok h) q = Sound-replaced P more e h s p (extend-messages json e.transcript more q)

  admit_reply-messages :
      (h : History V) (m : Message V) {r : History V × ToolBudget}
      → admit_reply json h m ≡ ok r
      → r.0.messages ≡ h.messages ++ m ∷ []
  unfolding admit_reply
  admit_reply-messages h m q =
      let (next, _, q1) = Errors.>>=-eq-ok (check_append json h (m ∷ [])) _ q in
      let (budget, _, q2) = Errors.>>=-eq-ok (new_budget json (h.limit - next) (calls_of m)) _ q1 in
      sym (ap (λ (x : History V × ToolBudget). x.0.messages) (same_pair q2))

  pub Ensures-admit :
      (P : History V → Type 0) (m : Message V)
      → Ensures json settings.limits P
          (admit_now json checkpoint_bytes settings m)
          (λ b. Appended P (m ∷ []))
  unfolding admit_now admitted Held
  Ensures-admit P m e s p = from (admit_reply json e.transcript m) refl
    where
      from :
          (r : Result (History V × ToolBudget))
          → admit_reply json e.transcript m ≡ r
          → Held json settings.limits (λ b. Appended P (m ∷ [])) (admitted e r)
      from (err x) q = s
      from (ok h) q = Sound-replaced P (m ∷ []) e h.0 s p (admit_reply-messages e.transcript m q)
