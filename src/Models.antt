-- ===== src/Models.antt =====
-- internal/models/mock.go: what a mock is. A pointer is an `Option`, a map a `Dict`, an `int` a `ℤ`.
mod Dynamic
pub use Dynamic.{
  Value, null, boolean, int64, float64, text, slice, object, Items, nil, cons, Float64,
}
unfoldable pub use Dynamic.{lt_float64, field?}
use pmp_mock_http.Prelude.{ℤ, pos, String, Bool, false, Option, none, List, [], Dict}

pub record RegexConfig : Type 0 where
  pub uri : Bool
  pub method : Bool
  pub headers : Bool
  pub body : Bool

pub record JsonPathMatcher : Type 0 where
  pub path : String
  pub value : String
  pub regex : Bool

pub record Request : Type 0 where
  pub uri : String
  pub method : String
  pub headers : Dict String
  pub body : String
  pub is_regex : RegexConfig
  pub json_path : List JsonPathMatcher
  pub java_script : String
  pub validate_schema : Dict Value

pub record ChaosConfig : Type 0 where
  pub enabled : Bool
  pub failure_rate : Float64
  pub error_codes : List ℤ
  pub latency_min : ℤ
  pub latency_max : ℤ

pub record LatencyConfig : Type 0 where
  pub type : String
  pub min : ℤ
  pub max : ℤ
  pub p50 : ℤ
  pub p95 : ℤ
  pub p99 : ℤ

pub record Callback : Type 0 where
  pub url : String
  pub method : String
  pub headers : Dict String
  pub body : String

pub record ResponseItem : Type 0 where
  pub status_code : ℤ
  pub headers : Dict String
  pub body : String
  pub delay : ℤ
  pub template : Bool
  pub header_templates : Bool
  pub callback : Option Callback
  pub chaos : Option ChaosConfig
  pub latency : Option LatencyConfig

pub record Response : Type 0 where
  pub status_code : ℤ
  pub headers : Dict String
  pub body : String
  pub delay : ℤ
  pub template : Bool
  pub header_templates : Bool
  pub callback : Option Callback
  pub sequence : List ResponseItem
  pub sequence_mode : String
  pub chaos : Option ChaosConfig
  pub latency : Option LatencyConfig

pub record WebSocketMessage : Type 0 where
  pub type : String
  pub message_data : String
  pub delay : ℤ
  pub template : Bool

pub record WebSocketConfig : Type 0 where
  pub mode : String
  pub messages : List WebSocketMessage
  pub interval : ℤ
  pub close_after : ℤ
  pub java_script : String
  pub on_connect : String
  pub on_disconnect : String
  pub template : Bool
  pub max_connections : ℤ

pub record SseEvent : Type 0 where
  pub event : String
  pub event_data : String
  pub id : String
  pub retry : ℤ
  pub delay : ℤ
  pub template : Bool

pub record SseConfig : Type 0 where
  pub events : List SseEvent
  pub mode : String
  pub interval : ℤ
  pub retry : ℤ
  pub keep_alive : ℤ
  pub close_after : ℤ
  pub template : Bool
  pub java_script : String

pub record Mock : Type 0 where
  pub name : String
  pub scenarios : List String
  pub protocol : String
  pub request : Request
  pub response : Response
  pub web_socket : Option WebSocketConfig
  pub sse : Option SseConfig
  pub priority : ℤ

pub record MockSpec : Type 0 where
  pub mocks : List Mock

-- The zero values of Go, from which a literal that names some fields only is built.
abbrev pub empty_request : Request
empty_request = record {
  uri = "";
  method = "";
  headers = [];
  body = "";
  is_regex = record { uri = false; method = false; headers = false; body = false };
  json_path = [];
  java_script = "";
  validate_schema = [];
}

abbrev pub empty_response : Response
empty_response = record {
  status_code = pos 0;
  headers = [];
  body = "";
  delay = pos 0;
  template = false;
  header_templates = false;
  callback = none;
  sequence = [];
  sequence_mode = "";
  chaos = none;
  latency = none;
}

abbrev pub empty_item : ResponseItem
empty_item = record {
  status_code = pos 0;
  headers = [];
  body = "";
  delay = pos 0;
  template = false;
  header_templates = false;
  callback = none;
  chaos = none;
  latency = none;
}

abbrev pub empty_mock : Mock
empty_mock = record {
  name = "";
  scenarios = [];
  protocol = "";
  request = empty_request;
  response = empty_response;
  web_socket = none;
  sse = none;
  priority = pos 0;
}
