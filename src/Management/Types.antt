-- ===== src/Management/Types.antt =====
-- internal/management/models.go: managed mocks, their versions and templates, and the requests of
-- the management API. A pointer is an `Option`; `labels` is one too, since a write to a nil map
-- panics. A time is a number.
use pmp_mock_http.Prelude.{ℕ, String, Bool, Option, List, Dict}
use pmp_mock_http.Models.{Mock, Value}

pub record MockMetadata : Type 0 where
  pub id : String
  pub name : String
  pub version : ℕ
  pub tags : List String
  pub labels : Option (Dict String)
  pub description : String
  pub author : String
  pub created_at : ℕ
  pub updated_at : ℕ
  pub source : String
  pub template : String

pub record ManagedMock : Type 0 where
  pub metadata : MockMetadata
  pub mock : Mock

pub record MockVersion : Type 0 where
  pub version : ℕ
  pub mock : Mock
  pub changed_by : String
  pub timestamp : ℕ
  pub comment : String

pub record TemplateParameter : Type 0 where
  pub name : String
  pub type : String
  pub description : String
  pub required : Bool
  pub default_value : Option Value

pub record MockTemplate : Type 0 where
  pub id : String
  pub name : String
  pub description : String
  pub category : String
  pub tags : List String
  pub mock : Mock
  pub parameters : List TemplateParameter
  pub variables : Dict Value
  pub created_at : ℕ
  pub updated_at : ℕ

pub record MockFilter : Type 0 where
  pub tags : List String
  pub labels : Dict String
  pub source : String
  pub template : String
  pub search : String
  pub created_after : Option ℕ
  pub created_before : Option ℕ
  pub updated_after : Option ℕ
  pub updated_before : Option ℕ

pub record MockStats : Type 0 where
  pub total_mocks : ℕ
  pub mocks_by_source : Dict ℕ
  pub mocks_by_template : Dict ℕ
  pub mocks_by_tag : Dict ℕ
  pub total_versions : ℕ
  pub templates : ℕ

pub record CreateMockRequest : Type 0 where
  pub mock : Mock
  pub tags : List String
  pub labels : Option (Dict String)
  pub description : String
  pub author : String
  pub template : String

pub record UpdateMockRequest : Type 0 where
  pub mock : Option Mock
  pub tags : Option (List String)
  pub labels : Option (Option (Dict String))
  pub description : Option String
  pub comment : String
  pub author : String

pub record CreateTemplateRequest : Type 0 where
  pub name : String
  pub description : String
  pub category : String
  pub tags : List String
  pub mock : Mock
  pub parameters : List TemplateParameter
  pub variables : Dict Value

pub record InstantiateTemplateRequest : Type 0 where
  pub template_id : String
  pub parameters : Dict Value
  pub tags : List String
  pub labels : Option (Dict String)

-- The formats by their names "yaml", "json" and "openapi"; any other text is unsupported.
pub data ExportFormat : Type 0 where
  yaml json openapi : ExportFormat
  other : String → ExportFormat

pub record ImportRequest : Type 0 where
  pub format : ExportFormat
  pub import_data : String
  pub source : String
  pub tags : List String

pub record ExportRequest : Type 0 where
  pub format : ExportFormat
  pub filter : Option MockFilter
