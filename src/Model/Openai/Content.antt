-- ===== src/Model/Openai/Content.antt =====
-- The content of the messages of a request: convertContentPart and the three functions that convert
-- the content of user, system and assistant messages. `encode64` is the base64 of the library.
use Prim.Native.String.{◌++◌ as ◌text_then◌}
use xgc_agent.Prelude.{
  ℕ, String, Bool, false, not, Option, none, some, List, [], ◌∷◌, ◌⊎◌, inl, inr, if◌then◌else◌,
  ◌=?◌, string_eq,
}
use xgc_agent.Message.{Message, ContentPart, Image, Clip, File}

pub data Error : Type 0 where
  unsupported_provider : Error

-- A part of a request's message: a text, an image by its URL and detail, an audio by its data and
-- format, or a file by its id or by its data and name.
pub data PartParam : Type 0 where
  of_text : String → PartParam
  of_image_url : String → String → PartParam
  of_input_audio : String → String → PartParam
  of_file_id : String → PartParam
  of_file_data : String → String → PartParam

-- The content of a message: one text, or parts.
pub data ContentParam (Part : Type 0) : Type 0 where
  of_string : String → ContentParam Part
  of_parts : List Part → ContentParam Part

-- There are no parts, and there is a content.
unfoldable pub is_plain : {Any : Type 0} → Message Any → Bool
is_plain msg = elim msg.content_parts [ [] ↦ not (msg.content =? "") | p ∷ ps ↦ false ]

-- The content, if present, before the parts.
unfoldable pub content_first : {Part : Type 0} → (String → Part) → String → List Part → List Part
content_first part content parts = if content =? "" then parts else part content ∷ parts

-- The loop that system and assistant messages have over their parts.
unfoldable pub text_parts : List ContentPart → List String
text_parts [] = []
text_parts (part ∷ parts) =
    let rest = text_parts parts in
    if part.content_type =? "text" then elim part.text [ none ↦ rest | some t ↦ t ∷ rest ] else rest

-- System and assistant messages, which have only parts of text.
unfoldable pub convert_text_content : {Any : Type 0} → Message Any → ContentParam String
convert_text_content msg =
    if is_plain msg
    then of_string msg.content
    else of_parts (content_first (λ t. t) msg.content (text_parts msg.content_parts))

-- What the loop of `convertUserMessageContent` appends for a part.
unfoldable pub add_part : Error ⊎ Option PartParam → List PartParam → List PartParam
add_part (inl e) rest = rest
add_part (inr none) rest = rest
add_part (inr (some p)) rest = p ∷ rest

unfoldable pub convert_text : Option String → Option PartParam
convert_text none = none
convert_text (some t) = some (of_text t)

module _ (encode64 : List ℕ → String) where
  unfoldable pub image_to_url_or_base64 : Image → String
  image_to_url_or_base64 image =
      if image.url =? ""
      then "data:image/"
        text_then image.format
        text_then ";base64,"
        text_then encode64 image.data_of
      else image.url

  unfoldable pub file_to_params : File → PartParam
  file_to_params file =
      if file.file_id =? ""
      then of_file_data
          ("data:" text_then file.mime_type text_then ";base64," text_then encode64 file.data_of)
          file.filename
      else of_file_id file.file_id

  unfoldable pub audio_to_base64 : Clip → String
  audio_to_base64 audio =
      "data:" text_then audio.format text_then ";base64," text_then encode64 audio.data_of

  unfoldable pub convert_image : Option Image → Option PartParam
  convert_image none = none
  convert_image (some image) = some (of_image_url (image_to_url_or_base64 image) image.detail)

  unfoldable pub convert_audio : Option Clip → Option PartParam
  convert_audio none = none
  convert_audio (some audio) = some (of_input_audio (audio_to_base64 audio) audio.format)

  unfoldable pub convert_file : Option File → Option PartParam
  convert_file none = none
  convert_file (some file) = some (file_to_params file)

  -- `convertContentPart`: a part of no known type, or without its value, is `nil` with no error.
  unfoldable pub convert_content_part : ContentPart → Error ⊎ Option PartParam
  convert_content_part part =
      if part.content_type =? "text"
      then inr (convert_text part.text)
      else if part.content_type =? "image"
      then inr (convert_image part.image)
      else if part.content_type =? "audio"
      then inr (convert_audio part.audio)
      else if part.content_type =? "video"
      then inl unsupported_provider
      else if part.content_type =? "file"
      then inr (convert_file part.file)
      else inr none

  unfoldable pub convert_parts : List ContentPart → List PartParam
  convert_parts [] = []
  convert_parts (part ∷ parts) = add_part (convert_content_part part) (convert_parts parts)

  unfoldable pub convert_user_message_content :
      {Any : Type 0} → Message Any → ContentParam PartParam
  convert_user_message_content msg =
      if is_plain msg
      then of_string msg.content
      else of_parts (content_first of_text msg.content (convert_parts msg.content_parts))
