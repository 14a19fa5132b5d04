-- ===== src/Kube.antt =====
-- What the program sees of the Kubernetes API: object metadata, API errors, untyped objects, and
-- the reader and discovery clients, whose answers are parameters of the model.
pub mod Bookmark
pub mod InfoTile
pub mod ForecastleApp
pub mod Reader
use cupboard.Prelude.{ℕ, Bool, false, true, List, Option, none, some, Result}
use cupboard.Text.{Text, codes}
use cupboard.GoMap.{GoMap, lookup}
use cupboard.Any.{Any}

-- An error of the client library, by what the program asks of it: `errors.IsNotFound(err)`,
-- `errors.IsForbidden(err) || errors.IsUnauthorized(err)` and `err.Error()`.
pub record KubeError : Type 0 where
  pub not_found : Bool
  pub denied : Bool
  pub message : Text

pub record ObjectMeta : Type 0 where
  pub name : Text
  pub namespace : Text
  pub annotations : GoMap Text

pub record GroupVersion : Type 0 where
  pub group : Text
  pub version : Text

pub record GroupVersionKind : Type 0 where
  pub group_version : GroupVersion
  pub kind : Text

-- An `unstructured.Unstructured`: its metadata, and the answers of the library's accessors
-- `NestedStringSlice`, `NestedSlice` and `NestedString` at a path (`none` is `found == false`).
pub record Unstructured : Type 0 where
  pub meta : ObjectMeta
  pub nested_string_slice : List Text → Result Text (Option (List Text))
  pub nested_slice : List Text → Result Text (Option (List Any))
  pub nested_string : List Text → Result Text (Option Text)

-- The fields of `networkingv1.Ingress` and `corev1.Service` that the program reads.
pub record Ingress : Type 0 where
  pub meta : ObjectMeta
  -- `spec.rules[i].host`
  pub hosts : List Text

pub record Service : Type 0 where
  pub meta : ObjectMeta
  -- `spec.ports[i].port`
  pub ports : List ℕ

-- `strings` of `map[string]string`: a missing key reads as "".
unfoldable pub text_at : Text → GoMap Text → Text
text_at k m = elim (lookup k m) [ none ↦ codes "" | some v ↦ v ]
