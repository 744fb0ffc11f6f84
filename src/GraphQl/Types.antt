-- ===== src/GraphQl/Types.antt =====
-- The configuration of GraphQL operations, requests and responses.
use pmp_mock_http.Prelude.{ℤ, String, Bool, Option, List, Dict}
use pmp_mock_http.Models.{Value}

pub record GraphQlLocation : Type 0 where
  pub line : ℤ
  pub column : ℤ

pub record GraphQlError : Type 0 where
  pub message : String
  pub path : List Value
  pub locations : List GraphQlLocation
  pub extensions : Dict Value

pub record GraphQlOperation : Type 0 where
  pub name : String
  pub type : String
  pub query : String
  pub variables : Dict Value
  pub response : Option Value
  pub errors : List GraphQlError
  pub extensions : Dict Value
  pub template : Bool
  pub match_mode : String
  pub variable_match : Dict String

pub record SubscriptionEvent : Type 0 where
  pub payload_data : Option Value
  pub errors : List GraphQlError
  pub extensions : Dict Value
  pub delay : ℤ

pub record SubscriptionConfig : Type 0 where
  pub events : List SubscriptionEvent
  pub interval : ℤ
  pub max_events : ℤ
  pub keep_alive : ℤ
  pub protocol : String
  pub init_timeout : ℤ
  pub close_on_error : Bool

-- The resolvers are functions of the host program, and used nowhere.
pub record GraphQlConfig : Type 0 where
  pub schema : String
  pub operations : List GraphQlOperation
  pub introspection : Bool
  pub validation_mode : String
  pub subscriptions : Option SubscriptionConfig

pub record GraphQlRequest : Type 0 where
  pub query : String
  pub operation_name : String
  pub variables : Dict Value
  pub extensions : Dict Value

pub record GraphQlResponse : Type 0 where
  pub response_data : Option Value
  pub errors : List GraphQlError
  pub extensions : Dict Value
