-- ===== src/Kube/Bookmark.antt =====
-- api/dashboard/v1alpha1/bookmark_types.go and bookmarkgroup_types.go. Times are numbers of
-- nanoseconds; the `Conditions` of a status, which no code reads or writes, are left out.
use cupboard.Prelude.{ℕ, Bool, List, Option}
use cupboard.Text.{Text, codes}
use cupboard.GoMap.{GoMap}
use cupboard.Kube.{ObjectMeta}

abbrev pub target_self : Text
target_self = codes "_self"

abbrev pub target_blank : Text
target_blank = codes "_blank"

abbrev pub target_parent : Text
target_parent = codes "_parent"

abbrev pub target_top : Text
target_top = codes "_top"

pub record LocalObjectReference : Type 0 where
  pub name : Text

pub record UrlSource : Type 0 where
  pub ingress_ref : Option LocalObjectReference
  pub route_ref : Option LocalObjectReference
  pub ingress_route_ref : Option LocalObjectReference
  pub http_route_ref : Option LocalObjectReference
  pub grpc_route_ref : Option LocalObjectReference
  pub service_ref : Option LocalObjectReference

pub record BookmarkSpec : Type 0 where
  pub group : Text
  pub name : Text
  pub url : Text
  pub url_from : Option UrlSource
  pub target : Text
  pub icon : Text
  pub network_restricted : Bool
  pub replicate : Bool
  pub groups : List Text
  pub properties : GoMap Text

pub record BookmarkStatus : Type 0 where
  pub url_reachable : Option Bool
  pub last_url_check_at : Option ℕ
  pub url_check_error : Text
  pub last_synced_at : Option ℕ

pub record Bookmark : Type 0 where
  pub meta : ObjectMeta
  pub spec : BookmarkSpec
  pub status : BookmarkStatus

pub record BookmarkGroupSpec : Type 0 where
  pub name : Text
  pub replicate : Bool
  pub properties : GoMap Text

pub record BookmarkGroupStatus : Type 0 where
  pub bookmark_count : ℕ
  pub last_synced_at : Option ℕ

pub record BookmarkGroup : Type 0 where
  pub meta : ObjectMeta
  pub spec : BookmarkGroupSpec
  pub status : BookmarkGroupStatus
