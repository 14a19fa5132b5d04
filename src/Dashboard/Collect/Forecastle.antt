-- ===== src/Dashboard/Collect/Forecastle.antt =====
-- `collectForecastleApps` and `parseForecastleURLSource`.
use cupboard.Prelude.{Bool, ◌&&◌, Option, none, some, ok, err, if◌then◌else◌, not}
use cupboard.Text.{Text, codes, ◌==◌}
use cupboard.Text.Trim.{trim_space, is_blank}
use cupboard.Text.Case.{Unicode}
use cupboard.Kube.{text_at}
use cupboard.Kube.Bookmark.{LocalObjectReference, UrlSource, target_blank}
use cupboard.Kube.ForecastleApp.{ForecastleApp, ForecastleUrlSource}
use cupboard.Kube.Reader.{Reader}
use cupboard.Webhook.UrlResolver.{resolve_url_from_source}
use cupboard.Dashboard.Types.{DashboardLink}
use cupboard.Dashboard.Meta.{annotation_replicate}
use cupboard.Dashboard.Groups.{normalized_groups, strings}
use cupboard.Dashboard.Maps.{Maps, add_link, resolve_link_group_name}
use cupboard.Dashboard.Collector.{Collector, collect_list_if_found}

-- The closure `parse`: a reference with a blank name is dropped.
parse_ref : Option LocalObjectReference → Option LocalObjectReference
parse_ref none = none
parse_ref (some ref) = if is_blank ref.name then none else some (record { name = ref.name })

-- `parseForecastleURLSource`
unfoldable pub parse_forecastle_url_source : Option ForecastleUrlSource → Option UrlSource
unfolding parse_ref
parse_forecastle_url_source none = none
parse_forecastle_url_source (some source) = some (record {
  ingress_ref = parse_ref source.ingress_ref;
  route_ref = parse_ref source.route_ref;
  ingress_route_ref = parse_ref source.ingress_route_ref;
  http_route_ref = parse_ref source.http_route_ref;
  grpc_route_ref = none;
  service_ref = none;
})

-- The URL of an app: its own, or else the one that its reference resolves to.
unfoldable pub forecastle_url : Reader → ForecastleApp → Text
forecastle_url c item =
    if is_blank item.spec.url
    then elim (parse_forecastle_url_source item.spec.url_from) [
      | none ↦ item.spec.url
      | some source ↦ elim (resolve_url_from_source c item.meta.namespace (some source)) [
        | err e ↦ item.spec.url
        | ok resolved ↦ resolved
      ]
    ]
    else item.spec.url

unfoldable pub forecastle_link : Reader → ForecastleApp → DashboardLink
forecastle_link c item = record {
  name = item.spec.name;
  link_group = codes "";
  url = forecastle_url c item;
  target =
      let v = text_at (codes "target") item.spec.properties in
      if is_blank v then target_blank else v;
  icon = item.spec.icon;
  source = codes "forecastleapp";
  metadata = codes "";
  groups = normalized_groups (strings item.spec.groups);
  replicate = text_at annotation_replicate item.meta.annotations == codes "true";
}

-- Whether the app is of another instance than the configured one, if one is.
unfoldable pub of_other_instance : Text → ForecastleApp → Bool
of_other_instance wanted item =
    not (wanted == codes "") && not (trim_space item.spec.instance_name == wanted)

module _ ⦃u : Unicode⦄ where
  -- The body of the loop of `collectForecastleApps`.
  unfoldable pub add_forecastle_app : Reader → Text → ForecastleApp → Maps → Maps
  add_forecastle_app c wanted item m =
      if of_other_instance wanted item
      then m
      else (let group_name = resolve_link_group_name item.spec.group m.details in
          if is_blank item.spec.name
          then m
          else if is_blank group_name
          then m
          else if is_blank (forecastle_url c item)
          then m
          else add_link group_name (forecastle_link c item) m)

  -- `collectForecastleApps`
  unfoldable pub collect_forecastle_apps : Reader → Text → Collector
  collect_forecastle_apps c wanted =
      collect_list_if_found c.list_forecastle_apps (add_forecastle_app c wanted)
