-- ===== src/Genai.antt =====
-- The data of google.golang.org/genai, a library, that the program builds and reads.
pub mod Follows
use audio_service.Base.{ℕ, List, Option}
use audio_service.Base.Int.{ℤ}
use audio_service.Base.Text.{Text}

-- genai.Schema: the bounds are float64s, which are whole numbers here. An object has its properties, their order and the
-- required ones.
mutual
  pub data Schema : Type 0 where
    text_schema : Schema
    boolean_schema : Schema
    integer_schema : ℤ → ℤ → Schema
    number_schema : ℤ → ℤ → Schema
    array_schema : Schema → Schema
    object_schema : Properties → List Text → List Text → Schema

  pub data Properties : Type 0 where
    no_properties : Properties
    property : Text → Schema → Properties → Properties

-- A call of GenerateContent: one user message of a prompt and inline audio, and the configuration.
pub record GenRequest : Type 0 where
  pub model : Text
  pub prompt : Text
  pub audio : List ℕ
  pub mime_type : Text
  pub response_mime_type : Text
  pub response_schema : Schema
  pub max_output_tokens : ℤ

-- A response: the finish reasons of the candidates, where a candidate may be nil; the counts of
-- prompt and candidate tokens; and its text.
pub record GenResponse : Type 0 where
  pub candidates : List (Option Text)
  pub usage : Option (ℤ × ℤ)
  pub text : Text
