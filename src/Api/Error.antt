-- ===== src/Api/Error.antt =====
-- packages/api/src/error.rs
use mona_agent_core.Prelude.{ℕ, String, ◌≡◌, refl, Bool, true, false, Option, none, some}
use mona_agent_core.Prelude.Strings.{Str, str}

pub data ErrorCode : Type 0 where
  configuration unsupported checkpoint dependency plugin schema policy : ErrorCode
  model_authentication model_quota model_rate_limit model_server model_context_window : ErrorCode
  model_history_incompatible model_request model_transport model_protocol : ErrorCode
  model_truncated tool cancelled deadline limit closed panic : ErrorCode

pub record AgentError : Type 0 where
  pub code : ErrorCode
  pub message : Str
  pub http_status : Option ℕ
  pub retry_after_ms : Option ℕ
  pub model_output_started : Bool

pub data Result {ℓ} (T : Type ℓ) : Type ℓ where
  err : AgentError → Result T
  ok : T → Result T

-- AgentError::new
unfoldable pub new : ErrorCode → Str → AgentError
new code message = record {
  code = code;
  message = message;
  http_status = none;
  retry_after_ms = none;
  model_output_started = false;
}

-- The error of a literal message.
abbrev pub error : ErrorCode → String → AgentError
error code message = new code (str message)

-- `if refused { return Err(e); }`
abbrev pub refuse : Bool → AgentError → Result (Unit {0})
refuse true e = err e
refuse false e = ok tt

-- The operator `?`, and `?` on a statement without a value.
infixl 5 ◌>>=◌ ◌>>◌
abbrev pub ◌>>=◌ {ℓ κ} : {T : Type ℓ} {U : Type κ} → Result T → (T → Result U) → Result U
err e >>= rest = err e
ok a >>= rest = rest a

abbrev pub ◌>>◌ {κ} : {U : Type κ} → Result (Unit {0}) → Result U → Result U
first >> rest = first >>= (λ done. rest)

module _ {ℓ} {A : Type ℓ} where
  abbrev pub ok_or : Option A → AgentError → Result A
  ok_or none e = err e
  ok_or (some a) e = ok a

  abbrev pub is_ok : Result A → Bool
  is_ok (ok a) = true
  is_ok (err e) = false

module _ {ℓ κ} {T : Type ℓ} {U : Type κ} where
  -- What a successful chain went through.
  pub >>=-eq-ok :
      (m : Result T) (rest : T → Result U) {u : U}
      → (m >>= rest) ≡ ok u
      → (a : T) × (m ≡ ok a) × (rest a ≡ ok u)
  >>=-eq-ok (err e) rest h = cc
  >>=-eq-ok (ok a) rest h = (a, refl, h)

pub ok_or-eq-ok {ℓ} :
    {A : Type ℓ} (o : Option A) (e : AgentError) {a : A} → ok_or o e ≡ ok a → o ≡ some a
ok_or-eq-ok none e h = cc
ok_or-eq-ok (some b) e h = cc

-- What `refuse` lets through.
pub refuse-eq-ok : (b : Bool) (e : AgentError) {u : Unit {0}} → refuse b e ≡ ok u → b ≡ false
refuse-eq-ok true e h = cc
refuse-eq-ok false e h = refl
