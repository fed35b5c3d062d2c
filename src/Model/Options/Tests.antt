-- ===== src/Model/Options/Tests.antt =====
-- Concrete options of a call.
use xgc_agent.Prelude.{ℕ, ◌≡◌, refl, some, none, [], ◌∷◌, List}
use xgc_agent.Prelude.Int.{pos}
use xgc_agent.Model.Options.{
  BaseOption, no_options, with_model, with_max_tokens, apply, apply_all, get_common_options,
}

abbrev three : List (BaseOption ℕ)
three = with_model "a" ∷ with_max_tokens (pos 5) ∷ with_model "b" ∷ []

set_twice :
    get_common_options none three
    ≡ record no_options { model = some "b"; max_tokens = some (pos 5) }
unfolding get_common_options apply apply_all
set_twice = refl
