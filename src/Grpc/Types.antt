-- ===== src/Grpc/Types.antt =====
-- The configuration of services and methods, and what a handler does with a stream.
use pmp_mock_http.Prelude.{ℤ, String, Bool, Option, List, [], Dict, insert, ◌∷◌}
use pmp_mock_http.Models.{Value}

pub record JsonPathRule : Type 0 where
  pub path : String
  pub value : Value
  pub regex : Bool

-- A nil map is `none`.
pub record RequestMatcher : Type 0 where
  pub body : Option (Dict Value)
  pub match_mode : String
  pub json_path : List JsonPathRule
  pub body_contains : String

pub record ResponseConfig : Type 0 where
  pub body : Dict Value
  pub metadata : Dict String
  pub trailers : Dict String
  pub delay : ℤ
  pub stream_delay : ℤ
  pub stream_count : ℤ
  pub template : Bool

pub record MethodConfig : Type 0 where
  pub name : String
  pub stream_type : String
  pub request : Option RequestMatcher
  pub response : Option ResponseConfig
  pub responses : List ResponseConfig
  pub metadata : Dict String
  pub status_code : ℤ
  pub status_message : String
  pub delay : ℤ
  pub template : Bool
  pub java_script : String

pub record ServiceConfig : Type 0 where
  pub name : String
  pub methods : List MethodConfig

-- The services by their names.
abbrev pub Services : Type 0
Services = Dict ServiceConfig

-- The loop of `NewServer`: of two services with one name the last counts.
unfoldable pub index_services : List ServiceConfig → Services → Services
index_services [] services = services
index_services (service ∷ rest) services =
    index_services rest (insert services service.name service)

-- What RecvMsg gives: the fields of a message, io.EOF, or an error.
pub data Received : Type 0 where
  message : Dict Value → Received
  end_of_stream : Received
  broken : String → Received

pub data Effect : Type 0 where
  sends_header : Dict String → Effect
  sends : Dict Value → Effect
  fails_to_send : Dict Value → Effect
  sets_trailer : Dict String → Effect
  sleeps : ℤ → Effect

-- How a call ends: with no error, with a status of a code and a message, or with the error of the
-- stream.
pub data Outcome : Type 0 where
  ok : Outcome
  status : ℤ → String → Outcome
  stream_error : String → Outcome

-- json.Marshal, "" if it fails (its error is ignored); and the error of SendMsg, which the
-- connection decides by what was done so far.
pub record GrpcExternals : Type 0 where
  pub marshal : Dict Value → String
  pub send_error : List Effect → Option String
