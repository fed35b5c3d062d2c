-- ===== src/Model/Openai/Texts.antt =====
-- The texts of the messages that ConvertToOpenAIMessages makes.
use xgc_agent.Prelude.{
  ◌≡◌, refl, sym, subst, ap₂, ℕ, String, true, false, Option, none, some, List, [], ◌∷◌, map, arith,
  if◌then◌else◌, ◌=?◌, string_eq, string_iff,
}
use xgc_agent.Message.{Message, ContentPart, role_system, role_user, role_assistant, role_tool}
use xgc_agent.Model.Openai.Content.{
  ContentParam, of_string, of_parts, PartParam, of_text, of_image_url, of_input_audio, of_file_id,
  of_file_data, is_plain, content_first, text_parts, convert_text_content, convert_text,
  convert_image, convert_audio, convert_file, convert_content_part, add_part, convert_parts,
  convert_user_message_content, file_to_params,
}
use xgc_agent.Model.Openai.Convert.{
  MessageParam, of_user, of_system, of_assistant, of_tool, convert_message,
  convert_to_openai_messages,
}

abbrev pub texts_of_parts : List PartParam → List String
texts_of_parts [] = []
texts_of_parts (of_text t ∷ ps) = t ∷ texts_of_parts ps
texts_of_parts (of_image_url _ _ ∷ ps) = texts_of_parts ps
texts_of_parts (of_input_audio _ _ ∷ ps) = texts_of_parts ps
texts_of_parts (of_file_id _ ∷ ps) = texts_of_parts ps
texts_of_parts (of_file_data _ _ ∷ ps) = texts_of_parts ps

abbrev pub text_content : ContentParam String → List String
text_content (of_string t) = t ∷ []
text_content (of_parts ts) = ts

abbrev pub user_content : ContentParam PartParam → List String
user_content (of_string t) = t ∷ []
user_content (of_parts ps) = texts_of_parts ps

abbrev pub param_texts : MessageParam → List String
param_texts (of_user c) = user_content c
param_texts (of_system c) = text_content c
param_texts (of_assistant c calls) = text_content c
param_texts (of_tool t id) = t ∷ []

abbrev pub param_role : MessageParam → String
param_role (of_user _) = role_user
param_role (of_system _) = role_system
param_role (of_assistant _ _) = role_assistant
param_role (of_tool _ _) = role_tool

-- The text of a part, if it is a text.
abbrev pub written : ContentPart → Option String
written part = if part.content_type =? "text" then part.text else none

abbrev pub written_all : List ContentPart → List String
written_all [] = []
written_all (part ∷ parts) = elim (written part) [
  | none ↦ written_all parts
  | some t ↦ t ∷ written_all parts
]

-- The content if there is one, and the texts of the parts.
abbrev pub own_texts : String → List ContentPart → List String
own_texts content parts = if content =? "" then written_all parts else content ∷ written_all parts

module _ {Any : Type 0} where
  -- The texts of a message; of a tool's answer the content alone.
  abbrev pub message_texts : Message Any → List String
  message_texts msg =
      if msg.role =? role_tool then msg.content ∷ [] else own_texts msg.content msg.content_parts

  -- A role that is not known is a user's.
  abbrev pub sent_role : Message Any → String
  sent_role msg =
      if msg.role =? role_system
      then role_system
      else if msg.role =? role_assistant
      then role_assistant
      else if msg.role =? role_tool
      then role_tool
      else role_user

-- Two roles are not one.
one_role : (r a b : String) → (a =? b) ≡ false → (r =? a) ≡ true → (r =? b) ≡ false
one_role r a b ne h = subst (λ s. (s =? b) ≡ false) (sym ((string_iff r a).0 h)) ne

text_parts_lem : (parts : List ContentPart) → text_parts parts ≡ written_all parts
unfolding text_parts
text_parts_lem [] = refl
text_parts_lem (part ∷ parts) = ground (arith, text_parts_lem parts)

module _ (encode64 : List ℕ → String) where
  convert_part_texts :
      (part : ContentPart) (ps : List PartParam)
      → texts_of_parts (add_part (convert_content_part encode64 part) ps)
        ≡ elim (written part) [ none ↦ texts_of_parts ps | some t ↦ t ∷ texts_of_parts ps ]
  unfolding add_part convert_content_part convert_text convert_image convert_audio convert_file
      file_to_params
  convert_part_texts part ps = ground arith

  convert_parts_texts :
      (parts : List ContentPart) → texts_of_parts (convert_parts encode64 parts) ≡ written_all parts
  unfolding convert_parts
  convert_parts_texts [] = refl
  convert_parts_texts (part ∷ parts) =
      ground
        (arith, convert_part_texts part (convert_parts encode64 parts), convert_parts_texts parts)

  module _ {Any : Type 0} (text_of : List ℕ → String) where
    abbrev with_parts : Message Any → List ContentPart → Message Any
    with_parts msg parts = record msg { content_parts = parts }

    system_texts :
        (msg : Message Any) (parts : List ContentPart)
        → text_content (convert_text_content (with_parts msg parts)) ≡ own_texts msg.content parts
    unfolding convert_text_content is_plain content_first text_parts
    system_texts msg [] = ground arith
    system_texts msg (p ∷ ps) = ground (arith, text_parts_lem (p ∷ ps))

    user_texts :
        (msg : Message Any) (parts : List ContentPart)
        → user_content (convert_user_message_content encode64 (with_parts msg parts))
          ≡ own_texts msg.content parts
    unfolding convert_user_message_content is_plain content_first convert_parts
    user_texts msg [] = ground arith
    user_texts msg (p ∷ ps) = ground (arith, convert_parts_texts (p ∷ ps))

    convert_message_texts :
        (msg : Message Any) → param_texts (convert_message encode64 text_of msg) ≡ message_texts msg
    unfolding convert_message
    convert_message_texts msg = ground (
      arith,
      system_texts msg msg.content_parts,
      user_texts msg msg.content_parts,
      one_role msg.role role_system role_tool refl,
      one_role msg.role role_assistant role_tool refl,
    )

    convert_message_role :
        (msg : Message Any) → param_role (convert_message encode64 text_of msg) ≡ sent_role msg
    unfolding convert_message
    convert_message_role msg = ground arith

    -- The request has one message for each of the conversation's, in their order, in its role, or
    -- the user's where the role is not known; and with its texts: the content if it is not empty,
    -- then the texts of the parts, and for a tool's answer the content.
    pub convert_to_openai_messages_lem :
        (msgs : List (Message Any))
        → map {B = String × List String}
            (λ p. (param_role p, param_texts p))
            (convert_to_openai_messages encode64 text_of msgs)
          ≡ map {B = String × List String} (λ m. (sent_role m, message_texts m)) msgs
    unfolding convert_to_openai_messages
    convert_to_openai_messages_lem [] = refl
    convert_to_openai_messages_lem (msg ∷ msgs) =
        ap₂ (λ (m : String × List String) ms. m ∷ ms)
          (ap₂ (λ (r : String) (t : List String). (r, t)) (convert_message_role msg)
            (convert_message_texts msg))
          (convert_to_openai_messages_lem msgs)
