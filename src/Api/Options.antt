-- ===== src/Api/Options.antt =====
-- `ModelOptions` of packages/api/src/protocol.rs. `F` stands for `f64`.
use mona_agent_core.Prelude.{◌≡◌, refl, Option, none, some, List}
use mona_agent_core.Prelude.Strings.{Str}
use mona_agent_core.Api.Message.{ProviderData}

pub record ModelOptions (V F : Type 0) : Type 0 where
  pub model : Option Str
  pub temperature : Option F
  pub top_p : Option F
  pub stop : Option (List Str)
  pub provider_options : Option (ProviderData V)

-- a.or(b)
abbrev pub or_option {ℓ} : {A : Type ℓ} → Option A → Option A → Option A
or_option none b = b
or_option (some a) b = some a

or_option_assoc {ℓ} :
    {A : Type ℓ} (a b c : Option A) → or_option a (or_option b c) ≡ or_option (or_option a b) c
or_option_assoc none b c = refl
or_option_assoc (some a) b c = refl

module _ {V F : Type 0} where
  -- ModelOptions::default
  unfoldable pub no_options : ModelOptions V F
  no_options = record {
    model = none;
    temperature = none;
    top_p = none;
    stop = none;
    provider_options = none;
  }

  -- ModelOptions::inherit
  unfoldable pub inherit : ModelOptions V F → ModelOptions V F → ModelOptions V F
  inherit own defaults = record {
    model = or_option own.model defaults.model;
    temperature = or_option own.temperature defaults.temperature;
    top_p = or_option own.top_p defaults.top_p;
    stop = or_option own.stop defaults.stop;
    provider_options = or_option own.provider_options defaults.provider_options;
  }

  -- Layers of options can be resolved in either order, and empty options change nothing.
  pub inherit_assoc :
      (a b c : ModelOptions V F)
      → (inherit a (inherit b c) ≡ inherit (inherit a b) c) × (inherit no_options a ≡ a)
  unfolding inherit no_options
  inherit_assoc a b c = (
    λ i. record {
      model = or_option_assoc a.model b.model c.model i;
      temperature = or_option_assoc a.temperature b.temperature c.temperature i;
      top_p = or_option_assoc a.top_p b.top_p c.top_p i;
      stop = or_option_assoc a.stop b.stop c.stop i;
      provider_options = or_option_assoc a.provider_options b.provider_options c.provider_options i;
    },
    refl,
  )
