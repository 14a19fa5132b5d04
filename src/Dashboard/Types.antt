-- ===== src/Dashboard/Types.antt =====
-- The data of web/dashboard.go and the options of web/options.go.
use cupboard.Prelude.{Bool, List}
use cupboard.Prelude.Int.{ℤ}
use cupboard.Text.{Text}
use cupboard.GoMap.{GoMap}

pub record DashboardLink : Type 0 where
  pub name : Text
  pub link_group : Text
  pub url : Text
  pub target : Text
  pub icon : Text
  pub source : Text
  pub metadata : Text
  pub groups : List Text
  pub replicate : Bool

pub record DashboardLinkGroup : Type 0 where
  pub name : Text
  pub priority : ℤ
  pub priority_class : Text
  pub display_name : Text
  pub source : Text
  pub properties : GoMap Text
  pub replicate : Bool

pub record DashboardInfoTile : Type 0 where
  pub name : Text
  pub icon : Text
  pub url : Text
  pub target : Text
  pub source : Text
  pub content : Text
  pub replicate : Bool

pub record DashboardGroup : Type 0 where
  pub name : Text
  pub link_group : Text
  pub links : List DashboardLink
  pub tiles : List DashboardInfoTile
  pub source : Text

pub record DashboardResponse : Type 0 where
  pub link_groups : List DashboardLinkGroup
  pub groups : List DashboardGroup

-- web/options.go
pub record LinkGroup : Type 0 where
  pub name : Text
  pub priority : ℤ
  pub priority_class : Text
  pub display_name : Text

pub record StaticLink : Type 0 where
  pub group : Text
  pub link_group : Text
  pub name : Text
  pub url : Text
  pub target : Text
  pub icon : Text
  pub groups : List Text

pub record SyncTlsOptions : Type 0 where
  pub ca : Text
  pub cert : Text
  pub key : Text
  pub auth_cert : Text
  pub auth_key : Text

pub record SyncOptions : Type 0 where
  pub bind_address : Text
  pub urls : List Text
  pub srv_records : List Text
  pub tls : SyncTlsOptions
