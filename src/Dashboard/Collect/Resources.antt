-- ===== src/Dashboard/Collect/Resources.antt =====
-- `collectIngresses`, `collectServices` and `collectEndpointSlices`.
use cupboard.Prelude.{ℕ, List, [], ◌∷◌, Option, none, some, if◌then◌else◌}
use cupboard.Text.{Text, codes, ◌==◌}
use cupboard.Kube.{Ingress, Service, ObjectMeta}
use cupboard.Kube.Reader.{Reader}
use cupboard.Webhook.Host.{first_host, https_url, service_url}
use cupboard.Dashboard.Meta.{ResourceMeta, resource_meta_from}
use cupboard.Dashboard.Maps.{Maps}
use cupboard.Dashboard.Collector.{Collector, collect_list, add_resource, enabled_labels}

-- `if meta.URL == "" { ... }` with the URL derived from the resource, if it gives one.
unfoldable pub derive_url : Option Text → ResourceMeta → ResourceMeta
derive_url none meta = meta
derive_url (some url) meta = if meta.url == codes "" then record meta { url = url } else meta

-- The URL of the first usable host.
unfoldable pub host_url : Option Text → Option Text
host_url none = none
host_url (some host) = some (https_url host)

unfoldable pub add_ingress : Ingress → Maps → Maps
add_ingress ing =
    add_resource (codes "ingress")
      (derive_url (host_url (first_host ing.hosts)) (resource_meta_from ing.meta))

-- `collectIngresses`
unfoldable pub collect_ingresses : Reader → Collector
collect_ingresses c = collect_list (c.list_ingresses enabled_labels) add_ingress

ports_url : ObjectMeta → List ℕ → Option Text
ports_url meta [] = none
ports_url meta (port ∷ ports) = some (service_url meta port)

unfoldable pub add_service : Service → Maps → Maps
unfolding ports_url
add_service svc =
    add_resource (codes "service")
      (derive_url (ports_url svc.meta svc.ports) (resource_meta_from svc.meta))

-- `collectServices`
unfoldable pub collect_services : Reader → Collector
collect_services c = collect_list (c.list_services enabled_labels) add_service

unfoldable pub add_endpoint_slice : ObjectMeta → Maps → Maps
add_endpoint_slice eps = add_resource (codes "endpointslice") (resource_meta_from eps)

-- `collectEndpointSlices`
unfoldable pub collect_endpoint_slices : Reader → Collector
collect_endpoint_slices c = collect_list (c.list_endpoint_slices enabled_labels) add_endpoint_slice
