-- ===== src/Kube/Reader.antt =====
-- The clients through which the program reads a cluster: controller-runtime's `client.Reader` and
-- the discovery client. Their answers are given, one for each call that the program makes.
use cupboard.Prelude.{List, Result}
use cupboard.Text.{Text}
use cupboard.GoMap.{GoMap}
use cupboard.Kube.{
  KubeError, GroupVersion, GroupVersionKind, Unstructured, Ingress, Service, ObjectMeta,
}
use cupboard.Kube.Bookmark.{Bookmark, BookmarkGroup}
use cupboard.Kube.InfoTile.{InfoTile}
use cupboard.Kube.ForecastleApp.{ForecastleApp}

-- `client.MatchingLabels`
abbrev pub Labels : Type 0
Labels = GoMap Text

-- `List` into a typed list, with the labels to match where the code gives them, and `Get` of a
-- namespace and a name.
pub record Reader : Type 0 where
  pub list_bookmark_groups : Result KubeError (List BookmarkGroup)
  pub list_bookmarks : Result KubeError (List Bookmark)
  pub list_info_tiles : Result KubeError (List InfoTile)
  pub list_forecastle_apps : Result KubeError (List ForecastleApp)
  pub list_ingresses : Labels → Result KubeError (List Ingress)
  pub list_services : Labels → Result KubeError (List Service)
  -- the metadata of the `discoveryv1.EndpointSlice`s
  pub list_endpoint_slices : Labels → Result KubeError (List ObjectMeta)
  -- an `UnstructuredList` of a kind
  pub list_unstructured : GroupVersionKind → Labels → Result KubeError (List Unstructured)
  pub get_ingress : Text → Text → Result KubeError Ingress
  pub get_service : Text → Text → Result KubeError Service
  pub get_unstructured : GroupVersionKind → Text → Text → Result KubeError Unstructured

-- `ServerResourcesForGroupVersion(gv.String())`: the kinds of the group version's resources.
pub record Discovery : Type 0 where
  pub server_resources : GroupVersion → Result KubeError (List Text)
