-- ===== src/Model/Options.antt =====
-- The options of a call: model/options.go. A `float32` is its bits; `Impl` stands for the functions
-- that only one provider takes, each with the type of options that it changes.
pub mod Laws
mod Tests
use xgc_agent.Prelude.{ℕ, String, Option, none, some, List, [], ◌∷◌}
use xgc_agent.Prelude.Int.{ℤ}

pub record BaseOptions : Type 0 where
  pub model : Option String
  pub max_tokens : Option ℤ
  pub temperature : Option ℕ
  pub top_p : Option ℕ
  pub stop : List String

abbrev pub no_options : BaseOptions
no_options = record { model = none; max_tokens = none; temperature = none; top_p = none; stop = [] }

-- A `BaseOption`, by what its `apply` does; one without an `apply` has a function of a provider.
pub data BaseOption (Impl : Type 0) : Type 0 where
  with_model : String → BaseOption Impl
  with_temperature : ℕ → BaseOption Impl
  with_max_tokens : ℤ → BaseOption Impl
  with_top_p : ℕ → BaseOption Impl
  with_stop : List String → BaseOption Impl
  impl_specific : Impl → BaseOption Impl

module _ {Impl : Type 0} where
  unfoldable pub apply : BaseOption Impl → BaseOptions → BaseOptions
  apply (with_model name) o = record o { model = some name }
  apply (with_temperature temperature) o = record o { temperature = some temperature }
  apply (with_max_tokens max_tokens) o = record o { max_tokens = some max_tokens }
  apply (with_top_p top_p) o = record o { top_p = some top_p }
  apply (with_stop stop) o = record o { stop = stop }
  apply (impl_specific f) o = o

  unfoldable pub apply_all : List (BaseOption Impl) → BaseOptions → BaseOptions
  apply_all [] o = o
  apply_all (opt ∷ opts) o = apply_all opts (apply opt o)

  unfoldable pub get_common_options : Option BaseOptions → List (BaseOption Impl) → BaseOptions
  get_common_options none opts = apply_all opts no_options
  get_common_options (some base) opts = apply_all opts base

  -- The loop of `GetImplSpecificOptions`: `of_type` gives the function on `T` that an option has,
  -- if its type is that one.
  unfoldable pub apply_impl_specific :
      {T : Type 0} → (Impl → Option (T → T)) → List (BaseOption Impl) → T → T
  apply_impl_specific of_type [] base = base
  apply_impl_specific of_type (impl_specific f ∷ opts) base =
      apply_impl_specific of_type opts (elim (of_type f) [ none ↦ base | some g ↦ g base ])
  apply_impl_specific of_type (opt ∷ opts) base = apply_impl_specific of_type opts base

  unfoldable pub get_impl_specific_options :
      {T : Type 0} → T → (Impl → Option (T → T)) → Option T → List (BaseOption Impl) → T
  get_impl_specific_options zero_value of_type none opts =
      apply_impl_specific of_type opts zero_value
  get_impl_specific_options zero_value of_type (some base) opts =
      apply_impl_specific of_type opts base
