-- ===== src/Application/JournalEnds.antt =====
-- packages/application/src/subscription.rs: what a cursor finds in a journal.
use mona_agent_core.Prelude.{
  ℕ, suc, ◌+◌, ◌≤◌, ◌<◌, ◌≡◌, refl, inl, inr, false, none, some, List, [], ◌∷◌, arith, ltb,
  Bool-cases, length,
}
use mona_agent_core.Prelude.Strings.{Str}
use mona_agent_core.Api.Event.{RunSnapshot, EventEnvelope}
use mona_agent_core.Api.Event.Snapshot.{apply}
use mona_agent_core.Api.Event.Snapshot as Snapshot
use mona_agent_core.Application.Subscriptions.{find_after}
use mona_agent_core.Application.Histories.{applied-seq}
use mona_agent_core.Application.Positions.{public_at, Follows}
use mona_agent_core.Application.Collector.{public_at-seq}
use mona_agent_core.Application.Frames.{Follows-le}
use mona_agent_core.Runtime.Events.Applied.{replay}

module _ {V : Type 0} (run_id : Str) (log : List (EventEnvelope V)) (final : RunSnapshot V)
    (replays : replay (Snapshot.new run_id) log ≡ some final) where
  journal-seq :
      (k m : ℕ) (j : EventEnvelope V × ℕ) (js : List (EventEnvelope V × ℕ))
      → Follows run_id log k (j ∷ js) m
      → m ≤ length log
      → (j.0.seq ≡ suc k) × (suc k ≤ m)
  unfolding Follows
  journal-seq k m j js h l =
      let later = Follows-le run_id log final replays (suc k) m js h.1 in
      let first = (applied-seq (public_at run_id log k) j.0 (public_at run_id log (suc k)) h.0).0 in
      (
        omega (arith, first, public_at-seq run_id log final replays k (omega (arith, later, l))),
        later,
      )

  -- No event of the journal is after its end.
  pub find_after-end :
      (k m c : ℕ) (js : List (EventEnvelope V × ℕ))
      → Follows run_id log k js m
      → m ≤ length log
      → m ≤ c
      → find_after c js ≡ none
  unfolding Follows find_after
  find_after-end k m c [] h l m_c = refl
  find_after-end k m c (j ∷ js) h l m_c =
      let first = journal-seq k m j js h l in
      rw (not_after (omega (arith, first.0, first.1, m_c)))
        (find_after-end (suc k) m c js h.1 l m_c)
    where
      not_after : j.0.seq ≤ c → ltb c j.0.seq ≡ false
      not_after q = ground arith

  -- There is one after each earlier position of the journal.
  pub find_after-some :
      (k m c : ℕ) (js : List (EventEnvelope V × ℕ))
      → Follows run_id log k js m
      → m ≤ length log
      → k ≤ c
      → c < m
      → (e : EventEnvelope V) × (find_after c js ≡ some e)
  unfolding Follows find_after
  find_after-some k m c [] h l k_c c_m = absurd (omega (arith, h))
  find_after-some k m c (j ∷ js) h l k_c c_m = elim (Bool-cases (ltb c j.0.seq)) [
    | inl b ↦ rw b (j.0, refl)
    | inr b ↦
        (let first = journal-seq k m j js h l in
          rw b (find_after-some (suc k) m c js h.1 l (passed first.0 b) c_m))
  ]
    where
      passed : j.0.seq ≡ suc k → ltb c j.0.seq ≡ false → suc k ≤ c
      passed q b = ground (arith, b)

  pub oldest-le :
      (js : List (EventEnvelope V × ℕ)) (k m n : ℕ)
      → Follows run_id log k js m
      → m ≤ length log
      → n ≡ m
      → elim js [ [] ↦ n + 1 | j ∷ rest ↦ j.0.seq ] ≤ m + 1
  oldest-le [] k m n h l q = omega (arith, q)
  oldest-le (j ∷ js) k m n h l q =
      let first = journal-seq k m j js h l in omega (arith, first.0, first.1)

  pub covers :
      (js : List (EventEnvelope V × ℕ)) (k m n c : ℕ)
      → Follows run_id log k js m
      → m ≤ length log
      → n ≡ m
      → c < m
      → ltb (c + 1) (elim js [ [] ↦ n + 1 | j ∷ rest ↦ j.0.seq ]) ≡ false
      → k ≤ c
  covers [] k m n c h l q c_m b = absurd (none_left q c_m b)
    where
      none_left : n ≡ m → c < m → ltb (c + 1) (n + 1) ≡ false → ⊥
      none_left q c_m b = ground (arith, q, c_m, b)
  covers (j ∷ js) k m n c h l q c_m b = let first = journal-seq k m j js h l in started first.0 b
    where
      started : j.0.seq ≡ suc k → ltb (c + 1) j.0.seq ≡ false → k ≤ c
      started q b = ground (arith, q, b)
