-- ===== src/Runtime/Engine/Requests.antt =====
-- packages/runtime/src/engine.rs: what the inputs and the batches of a round leave of the history.
use mona_agent_core.Prelude.{
  ℕ, ◌≡◌, refl, sym, ap, subst, ◌∙◌, Bool, true, false, Option, List, [], ◌∷◌, ◌++◌, map, String,
  take, drop,
}
use mona_agent_core.Prelude.Strings.{Str, str}
use mona_agent_core.Api.Error.{Result, ok, err}
use mona_agent_core.Api.Content.{Content}
use mona_agent_core.Api.Message.{Message, user, tool, ToolCall, ToolStatus}
use mona_agent_core.Api.ToolResults.{new_result}
use mona_agent_core.Api.Serializer.{Serializer}
use mona_agent_core.Api.Validation.{validate_messages}
use mona_agent_core.Api.Checkpoint.{RunCheckpoint}
use mona_agent_core.Runtime.History.{History, check_append}
use mona_agent_core.Runtime.Checkpoints.{Surroundings, Save, saves_input, saves_after_tools}
use mona_agent_core.Runtime.Projection.Sound.{Valid}
use mona_agent_core.Runtime.Execution.{
  Execution, Round, Settings, continue, attempt, take_commands, stop_error,
}
use mona_agent_core.Runtime.Engine.{
  save_now, extend_now, accept_inputs, apply_commands, apply_inputs, close_batch, write_all,
  finish_batch,
}
use mona_agent_core.Runtime.Engine.Triples.{
  Appended, Sound, Held, Held-continue, Held-lift, Held-now, Held-ok, Held-err, Held-map, Held-end,
  Ensures-save, Ensures-attempt_save, Ensures-extend,
}

module _ {V F : Type 0} (json : Serializer V) (checkpoint_bytes : RunCheckpoint V F → Option ℕ)
    (settings : Settings) where
  abbrev pub Keeps : {A : Type 0} → (A → History V → Type 0) → Execution V F × Result A → Type 0
  Keeps = Held json settings.limits

  abbrev pub IsValid : History V → Type 0
  IsValid h = Valid json h.messages

  abbrev pub IsNow : Execution V F → History V → Type 0
  IsNow e h = h ≡ e.transcript

  abbrev Anything : History V → Type 0
  Anything h = Unit

  accept_inputs-valid :
      (additions : List (Message V)) (env : Surroundings) (e : Execution V F)
      → Sound json settings.limits e
      → Keeps (λ u. IsValid) (accept_inputs json checkpoint_bytes settings additions env e)
  unfolding accept_inputs
  accept_inputs-valid additions env e s =
      Held-now json settings.limits (λ u. IsValid) e _
        (Held-lift json settings.limits (λ u. IsValid) e (check_append json e.transcript additions)
          _ s
          (λ n fits.
            Held-lift json settings.limits (λ u. IsValid) e
              (validate_messages json (e.transcript.messages ++ additions)) _ s
              (λ u v.
                Held-continue json settings.limits (λ w. IsNow e) (λ w. IsValid)
                  (save_now json checkpoint_bytes settings
                    (saves_input (e.transcript.messages ++ additions)) env e)
                  _ (Ensures-save json checkpoint_bytes settings (IsNow e) _ env e s refl)
                  (λ w e1 s1 same.
                    Held-map json settings.limits (λ x. Appended (IsNow e) additions) (λ x. IsValid)
                      (extend_now json checkpoint_bytes settings additions e1)
                      (Ensures-extend json checkpoint_bytes settings (IsNow e) additions e1 s1 same)
                      (λ x h a.
                        subst (Valid json)
                          (sym (a.2 ∙ ap (λ (g : History V). g.messages ++ additions) a.1)) v)))))

  -- Inputs that were applied were validated.
  abbrev pub Applied : (History V → Type 0) → Bool → History V → Type 0
  Applied P true = IsValid
  Applied P false = P

  apply_commands-Applied :
      (P : History V → Type 0) (cs : List Str) (env : Surroundings) (e : Execution V F)
      → Sound json settings.limits e
      → P e.transcript
      → Keeps (Applied P) (apply_commands json checkpoint_bytes settings cs env e)
  unfolding apply_commands
  apply_commands-Applied P [] env e s p = Held-ok json settings.limits (Applied P) e false s p
  apply_commands-Applied P (c ∷ cs) env e s p =
      Held-continue json settings.limits (λ u. IsValid) (Applied P)
        (accept_inputs json checkpoint_bytes settings
          (map (λ text. user (Content.text text)) (c ∷ cs)) env e)
        _ (accept_inputs-valid (map (λ text. user (Content.text text)) (c ∷ cs)) env e s)
        (λ u e1 s1 v. Held-ok json settings.limits (Applied P) e1 true s1 v)

  pub apply_inputs-Applied :
      (P : History V → Type 0) (arrived : List Str) (env : Surroundings) (e : Execution V F)
      → Sound json settings.limits e
      → P e.transcript
      → Keeps (Applied P) (apply_inputs json checkpoint_bytes settings arrived env e)
  unfolding apply_inputs take_commands continue
  apply_inputs-Applied P arrived env e s p =
      apply_commands-Applied P (take 32 (e.queue ++ arrived)) env
        (record e { queue = drop 32 (e.queue ++ arrived) }) s p

  pub Applied-valid : (b : Bool) (h : History V) → Applied IsValid b h → IsValid h
  Applied-valid true h v = v
  Applied-valid false h v = v

  -- A batch that is not dispatched ends the round.
  pub close_batch-Keeps :
      (P : History V → Type 0) (r : Result (Unit {0})) (notice : String) (calls : List (ToolCall V))
      (e : Execution V F)
      → Sound json settings.limits e
      → P e.transcript
      → Keeps (λ u. P) (close_batch json checkpoint_bytes settings r notice calls e)
  unfolding close_batch
  close_batch-Keeps P (ok u) notice calls e s p = Held-ok json settings.limits (λ u. P) e tt s p
  close_batch-Keeps P (err x) notice calls e s p =
      let skipped =
        map
          (λ (c : ToolCall V).
            tool (new_result json c.id ToolStatus.skipped (Content.text (str notice))))
          calls in
      Held-continue json settings.limits (λ u. Appended P skipped) (λ u. P)
        (extend_now json checkpoint_bytes settings skipped e) _
        (Ensures-extend json checkpoint_bytes settings P skipped e s p)
        (λ u e1 s1 a. Held-err json settings.limits (λ u. P) e1 x s1)

  write_all-Keeps :
      (P : History V → Type 0) (ws : List (Save V × Surroundings)) (e : Execution V F)
      → Sound json settings.limits e
      → P e.transcript
      → Keeps (λ u. P) (write_all json checkpoint_bytes settings ws e)
  unfolding write_all
  write_all-Keeps P [] e s p = Held-ok json settings.limits (λ u. P) e tt s p
  write_all-Keeps P (w ∷ ws) e s p =
      Held-continue json settings.limits (λ r. P) (λ u. P)
        (attempt (save_now json checkpoint_bytes settings w.0 w.1) e) _
        (Ensures-attempt_save json checkpoint_bytes settings P w.0 w.1 e s p)
        (λ r e1 s1 p1. write_all-Keeps P ws e1 s1 p1)

  pub finish_batch-valid :
      (r : Round V) (e : Execution V F)
      → Sound json settings.limits e
      → Keeps (λ u. IsValid) (finish_batch json checkpoint_bytes settings r e)
  unfolding finish_batch
  finish_batch-valid r e s =
      Held-continue json settings.limits (λ u. Anything) (λ u. IsValid)
        (write_all json checkpoint_bytes settings r.writes e) _
        (write_all-Keeps Anything r.writes e s tt)
        (λ u e1 s1 p1.
          Held-continue json settings.limits (λ w. Appended Anything (map tool r.results))
            (λ w. IsValid) (extend_now json checkpoint_bytes settings (map tool r.results) e1) _
            (Ensures-extend json checkpoint_bytes settings Anything (map tool r.results) e1 s1 p1)
            (λ w e2 s2 a.
              Held-now json settings.limits (λ x. IsValid) e2 _
                (Held-lift json settings.limits (λ x. IsValid) e2
                  (validate_messages json e2.transcript.messages) _ s2
                  (λ x v.
                    Held-continue json settings.limits (λ y. IsValid) (λ y. IsValid)
                      (attempt
                        (save_now json checkpoint_bytes settings
                          (saves_after_tools e2.transcript.messages) r.settled_saved)
                        e2)
                      _
                      (Ensures-attempt_save json checkpoint_bytes settings IsValid
                        (saves_after_tools e2.transcript.messages) r.settled_saved e2 s2 v)
                      (λ committed e3 s3 v3.
                        Held-lift json settings.limits (λ y. IsValid) e3 (stop_error r.batch_error)
                          _ s3
                          (λ y q. Held-end json settings.limits IsValid e3 committed s3 v3))))))
