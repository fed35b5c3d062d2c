-- ===== src/Prompt/Tests.antt =====
-- Concrete runs of the prompt builder.
use xgc_agent.Prelude.{◌≡◌, refl, [], ◌∷◌}
use xgc_agent.Prelude.Int.{pos}
use xgc_agent.Prompt.Builder.{
  new_prompt_builder, system, context, build, with_section, join_sections, document_lines, itoa,
  itoa_from, text_of, digit_text,
}

itoa-1207 : itoa (pos 1207) ≡ 49 ∷ 50 ∷ 48 ∷ 55 ∷ []
unfolding itoa itoa_from
itoa-1207 = refl

built :
    build (context ("a" ∷ "b" ∷ []) (system "" (system "be brief" new_prompt_builder)))
    ≡ "be brief\n\n【参考资料】\n[1] a\n[2] b\n"
unfolding build context system new_prompt_builder with_section join_sections document_lines text_of
    digit_text itoa itoa_from
built = refl
