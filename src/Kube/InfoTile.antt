-- ===== src/Kube/InfoTile.antt =====
-- api/dashboard/v1alpha1/infotile_types.go. Times and durations are numbers of nanoseconds.
use cupboard.Prelude.{ℕ, Bool, List, Option}
use cupboard.Prelude.Int.{ℤ}
use cupboard.Text.{Text}
use cupboard.Kube.{ObjectMeta}

pub record NameValue : Type 0 where
  pub name : Text
  pub value : Text

pub record InfoTileHttpRequest : Type 0 where
  pub method : Text
  pub url : Text
  pub query_params : List NameValue
  pub headers : List NameValue
  pub body : Text

pub record InfoTileSpec : Type 0 where
  pub name : Text
  pub group : Text
  pub icon : Text
  pub url : Text
  pub target : Text
  pub source : Text
  pub interval : Option ℤ
  pub replicate : Bool
  pub http_request : Option InfoTileHttpRequest
  pub processor : Text

pub record InfoTileStatus : Type 0 where
  pub content : Text
  pub last_fetched_at : Option ℕ
  pub last_error : Text

pub record InfoTile : Type 0 where
  pub meta : ObjectMeta
  pub spec : InfoTileSpec
  pub status : InfoTileStatus
