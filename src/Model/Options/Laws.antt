-- ===== src/Model/Options/Laws.antt =====
-- The options that the lists of model/options.go leave.
use xgc_agent.Prelude.{◌≡◌, refl, ℕ, String, Option, none, some, List, [], ◌∷◌}
use xgc_agent.Prelude.Int.{ℤ}
use xgc_agent.Model.Options.{
  BaseOptions, BaseOption, with_model, with_temperature, with_max_tokens, with_top_p, with_stop,
  impl_specific, no_options, apply, apply_all, get_common_options,
}

module _ {Impl A : Type 0} where
  -- What the last option that sets a field sets it to, or the value given.
  abbrev pub last_or : (BaseOption Impl → Option A) → List (BaseOption Impl) → A → A
  last_or f [] a = a
  last_or f (opt ∷ opts) a = last_or f opts (elim (f opt) [ none ↦ a | some b ↦ b ])

abbrev pub start : Option BaseOptions → BaseOptions
start none = no_options
start (some base) = base

module _ {Impl : Type 0} where
  abbrev pub model_of : BaseOption Impl → Option (Option String)
  model_of (with_model name) = some (some name)
  model_of _ = none

  abbrev pub temperature_of : BaseOption Impl → Option (Option ℕ)
  temperature_of (with_temperature t) = some (some t)
  temperature_of _ = none

  abbrev pub max_tokens_of : BaseOption Impl → Option (Option ℤ)
  max_tokens_of (with_max_tokens n) = some (some n)
  max_tokens_of _ = none

  abbrev pub top_p_of : BaseOption Impl → Option (Option ℕ)
  top_p_of (with_top_p p) = some (some p)
  top_p_of _ = none

  abbrev pub stop_of : BaseOption Impl → Option (List String)
  stop_of (with_stop s) = some s
  stop_of _ = none

  -- What the last of the options of each kind sets, over a base.
  abbrev pub last_options : List (BaseOption Impl) → BaseOptions → BaseOptions
  last_options opts o = record {
    model = last_or model_of opts o.model;
    max_tokens = last_or max_tokens_of opts o.max_tokens;
    temperature = last_or temperature_of opts o.temperature;
    top_p = last_or top_p_of opts o.top_p;
    stop = last_or stop_of opts o.stop;
  }

  apply_all_lem :
      (opts : List (BaseOption Impl)) (o : BaseOptions) → apply_all opts o ≡ last_options opts o
  unfolding apply apply_all
  apply_all_lem [] o = refl
  apply_all_lem (with_model a ∷ opts) o = apply_all_lem opts (record o { model = some a })
  apply_all_lem (with_temperature a ∷ opts) o =
      apply_all_lem opts (record o { temperature = some a })
  apply_all_lem (with_max_tokens a ∷ opts) o = apply_all_lem opts (record o { max_tokens = some a })
  apply_all_lem (with_top_p a ∷ opts) o = apply_all_lem opts (record o { top_p = some a })
  apply_all_lem (with_stop a ∷ opts) o = apply_all_lem opts (record o { stop = a })
  apply_all_lem (impl_specific f ∷ opts) o = apply_all_lem opts o

  -- Each field of the common options is what the last option for it sets, and without one what the
  -- base has, or nothing where there is no base.
  pub get_common_options_lem :
      (base : Option BaseOptions) (opts : List (BaseOption Impl))
      → get_common_options base opts ≡ last_options opts (start base)
  unfolding get_common_options
  get_common_options_lem none opts = apply_all_lem opts no_options
  get_common_options_lem (some base) opts = apply_all_lem opts base
