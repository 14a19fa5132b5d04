-- ===== src/Kube/ForecastleApp.antt =====
-- api/forecastle/v1alpha1/forecastleapp_types.go
use cupboard.Prelude.{Bool, List, Option}
use cupboard.Text.{Text}
use cupboard.GoMap.{GoMap}
use cupboard.Kube.{ObjectMeta}
use cupboard.Kube.Bookmark.{LocalObjectReference}

pub record ForecastleUrlSource : Type 0 where
  pub ingress_ref : Option LocalObjectReference
  pub route_ref : Option LocalObjectReference
  pub ingress_route_ref : Option LocalObjectReference
  pub http_route_ref : Option LocalObjectReference

pub record ForecastleAppSpec : Type 0 where
  pub name : Text
  pub instance_name : Text
  pub group : Text
  pub icon : Text
  pub url : Text
  pub url_from : Option ForecastleUrlSource
  pub network_restricted : Bool
  pub groups : List Text
  pub properties : GoMap Text

pub record ForecastleApp : Type 0 where
  pub meta : ObjectMeta
  pub spec : ForecastleAppSpec
