-- ===== src/Message/Response.antt =====
-- Requests and responses of a model: message/request.go and message/response.go. A float is its
-- bits, and a time a number whose zero is Go's zero time.
use xgc_agent.Prelude.{ℕ, String, Bool, List, Option}
use xgc_agent.Prelude.Int.{ℤ}
use xgc_agent.Message.{Message}

abbrev pub api_error : String
api_error = "api_error"

abbrev pub no_responding : String
no_responding = "no_responding"

pub record GenerationConfig : Type 0 where
  pub max_tokens : Option ℤ
  pub temperature : Option ℕ
  pub top_p : Option ℕ
  pub stop : List String

-- `Tool` stands for the tools, which a request has under their names.
pub record Request (Any Tool : Type 0) : Type 0 where
  pub messages : List (Message Any)
  pub config : GenerationConfig
  pub tools : List (String × Tool)

pub record Usage : Type 0 where
  pub prompt_tokens : ℕ
  pub completion_tokens : ℕ
  pub total_tokens : ℕ

pub record ResponseError : Type 0 where
  pub message : String
  pub error_type : String

pub record ResponseChoice (Any : Type 0) : Type 0 where
  pub position : ℕ
  pub message : Message Any
  pub finish_reason : Option String

pub record Response (Any : Type 0) : Type 0 where
  pub id : String
  pub model : String
  pub choices : List (ResponseChoice Any)
  pub usage : Option Usage
  pub error : Option ResponseError
  pub time : ℕ
  pub done : Bool
  pub is_partial : Bool
