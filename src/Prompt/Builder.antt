-- ===== src/Prompt/Builder.antt =====
-- `PromptBuilder` of prompt/builder.go. A method returns the builder that it leaves.
pub mod Number
use Prim.Native.String.{◌++◌}
use mathlib.Core.List.{◌++◌ as ◌followed_by◌}
use xgc_agent.Prelude.{
  ℕ, zero, suc, ◌+◌, ◌-◌, ◌/◌, ◌%◌, String, Bool, List, [], ◌∷◌, if◌then◌else◌, ◌==◌, ◌=?◌,
  string_eq,
}
use xgc_agent.Prelude.Int.{ℤ, pos, negsuc}

pub record PromptBuilder : Type 0 where
  pub sections : List String

pub record ToolSpecItem : Type 0 where
  pub name : String
  pub desc : String
  pub schema : String

unfoldable pub new_prompt_builder : PromptBuilder
new_prompt_builder = record { sections = [] }

unfoldable pub with_section : String → PromptBuilder → PromptBuilder
with_section s b = record { sections = b.sections followed_by s ∷ [] }

unfoldable pub system : String → PromptBuilder → PromptBuilder
system s b = if s =? "" then b else with_section s b

unfoldable pub tool_lines : List ToolSpecItem → String
tool_lines [] = ""
tool_lines (t ∷ ts) =
    let parameters = if t.schema =? "" then "" else "\n  参数：" ++ t.schema in
    "- " ++ t.name ++ "：" ++ t.desc ++ parameters ++ "\n" ++ tool_lines ts

unfoldable pub tools : List ToolSpecItem → PromptBuilder → PromptBuilder
tools [] b = b
tools (t ∷ ts) b = with_section ("【可用工具】\n" ++ tool_lines (t ∷ ts)) b

-- The loop of `itoa`, on fuel; a digit is its byte.
unfoldable pub itoa_from : ℕ → ℕ → List ℕ → List ℕ
itoa_from zero n digits = digits
itoa_from (suc fuel) n digits =
    let rest = itoa_from fuel (n / 10) ((48 + n % 10) ∷ digits) in if n == 0 then digits else rest

-- The bytes that `itoa` gives: none for a negative number, whose loop does not start. The fuel `n`
-- is enough, since each round divides by ten.
unfoldable pub itoa : ℤ → List ℕ
itoa (pos n) = if n == 0 then 48 ∷ [] else itoa_from n n []
itoa (negsuc n) = []

-- A text of digits from its bytes.
unfoldable pub digit_text : ℕ → String
digit_text zero = "0"
digit_text (suc zero) = "1"
digit_text (suc (suc zero)) = "2"
digit_text (suc (suc (suc zero))) = "3"
digit_text (suc (suc (suc (suc zero)))) = "4"
digit_text (suc (suc (suc (suc (suc zero))))) = "5"
digit_text (suc (suc (suc (suc (suc (suc zero)))))) = "6"
digit_text (suc (suc (suc (suc (suc (suc (suc zero))))))) = "7"
digit_text (suc (suc (suc (suc (suc (suc (suc (suc zero)))))))) = "8"
digit_text _ = "9"

unfoldable pub text_of : List ℕ → String
text_of [] = ""
text_of (b ∷ bytes) = digit_text (b - 48) ++ text_of bytes

-- The documents, numbered from `i + 1`.
unfoldable pub document_lines : ℕ → List String → String
document_lines i [] = ""
document_lines i (d ∷ docs) =
    "[" ++ text_of (itoa (pos (i + 1))) ++ "] " ++ d ++ "\n" ++ document_lines (i + 1) docs

unfoldable pub context : List String → PromptBuilder → PromptBuilder
context [] b = b
context (d ∷ docs) b = with_section ("【参考资料】\n" ++ document_lines 0 (d ∷ docs)) b

unfoldable pub memory_lines : List String → String
memory_lines [] = ""
memory_lines (m ∷ items) = "- " ++ m ++ "\n" ++ memory_lines items

unfoldable pub memory : List String → PromptBuilder → PromptBuilder
memory [] b = b
memory (m ∷ items) b = with_section ("【记忆上下文】\n" ++ memory_lines (m ∷ items)) b

unfoldable pub join_sections : List String → String
join_sections [] = ""
join_sections (s ∷ []) = s
join_sections (s ∷ t ∷ ss) = s ++ "\n\n" ++ join_sections (t ∷ ss)

unfoldable pub build : PromptBuilder → String
build b = join_sections b.sections
