-- ===== src/Model.antt =====
-- model/: what services are asked and answer. A payload is a number, a header's value a string.
use ranch.Prelude.{Bool, Option, String, nat_eq, string_eq, ℕ}
use ranch.Prelude.Dict.{Dict}

-- BrokerDestinationConfig
pub record BrokerDestination : Type 0 where
  pub connection_id : String
  pub destination : String

pub record Request : Type 0 where
  pub id : Option ℕ
  pub destination : String
  pub payload : ℕ
  pub request_command : String
  pub broker_destination : Option BrokerDestination

pub record Response : Type 0 where
  pub id : Option ℕ
  pub destination : String
  pub payload : Option ℕ
  pub http_status_code : ℕ
  pub is_error : Bool
  pub error_code : ℕ
  pub error_message : String
  pub broker_destination : Option BrokerDestination
  pub headers : Dict String String
  pub marshal : Bool
