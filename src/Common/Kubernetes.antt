-- ===== src/Common/Kubernetes.antt =====
-- What the components use of the Kubernetes libraries: the names of resources, and objects that are
-- maps of fields. The objects themselves and their accessors are a parameter.
use Prim.Native.String.{String}

pub record GroupVersionResource : Type 0 where
  pub group : String
  pub version : String
  pub resource : String

mutual
  -- A value of map[string]interface{}, as far as the code writes one.
  pub data Content : Type 0 where
    text : String → Content
    object : Fields → Content

  pub data Fields : Type 0 where
    no_fields : Fields
    field : String → Content → Fields → Fields

-- unstructured.Unstructured: `with_object` is the literal with the given fields.
pub record Objects (O : Type 0) : Type 0 where
  pub with_object : Fields → O
  pub get_api_version : O → String
  pub get_kind : O → String
  pub get_name : O → String
  pub get_namespace : O → String
