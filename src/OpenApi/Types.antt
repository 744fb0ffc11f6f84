-- ===== src/OpenApi/Types.antt =====
-- The parts of a document. A map of contents may be nil.
use pmp_mock_http.Prelude.{ℤ, String, Bool, Option, List, Dict}
use pmp_mock_http.Models.{Value}
use pmp_mock_http.Http.{Result}

pub record Example : Type 0 where
  pub summary : String
  pub value : Option Value

pub record HeaderDescription : Type 0 where
  pub description : String
  pub schema : Option Value

pub record MediaType : Type 0 where
  pub schema : Option Value
  pub example : Option Value
  pub examples : Dict Example

pub record ResponseDescription : Type 0 where
  pub description : String
  pub content : Option (Dict MediaType)
  pub headers : Dict HeaderDescription

pub record RequestBody : Type 0 where
  pub description : String
  pub required : Bool
  pub content : Dict MediaType

pub record Parameter : Type 0 where
  pub name : String
  pub location : String
  pub description : String
  pub required : Bool
  pub schema : Option Value
  pub example : Option Value

pub record Operation : Type 0 where
  pub summary : String
  pub description : String
  pub operation_id : String
  pub parameters : List Parameter
  pub request_body : Option RequestBody
  pub responses : Dict ResponseDescription
  pub tags : List String

pub record PathItem : Type 0 where
  pub get_operation : Option Operation
  pub post_operation : Option Operation
  pub put_operation : Option Operation
  pub patch_operation : Option Operation
  pub delete_operation : Option Operation
  pub head_operation : Option Operation
  pub options_operation : Option Operation

-- Of a document, what becomes of it.
pub record OpenApiSpec : Type 0 where
  pub openapi : String
  pub paths : Dict PathItem

pub record SwaggerSpec : Type 0 where
  pub swagger : String
  pub base_path : String
  pub paths : Dict PathItem

-- The libraries that the parser calls.
pub record OpenApiExternals : Type 0 where
  pub to_lower : String → String
  -- whether a text is a JSON object
  pub is_json : String → Bool
  pub json_openapi : String → Option OpenApiSpec
  pub json_swagger : String → Option SwaggerSpec
  pub yaml_openapi : String → Option OpenApiSpec
  pub yaml_swagger : String → Option SwaggerSpec
  -- json.Marshal
  pub marshal : Value → Option String
  -- fmt.Sscanf(code, "%d", …)
  pub scan : String → Option ℤ
  -- os.ReadFile, and http.Get with the reading of the body
  pub read_file : String → Result String
  pub fetch : String → Result (Result String)
  -- the order of a map from methods to operations
  pub range_operations : Dict (Option Operation) → Dict (Option Operation)
