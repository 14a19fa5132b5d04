-- ===== src/Tests/Names.antt =====
-- Groups of a user, names of link groups, and hosts.
use cupboard.Prelude.{none, some, [], ◌∷◌, ◌≡◌, ◌↔◌, refl}
use cupboard.Prelude.Lists.{Any}
use cupboard.Text.{codes, ◌==◌}
use cupboard.Text.Trim.{trim_space}
use cupboard.GoMap.{GoMap}
use cupboard.Dashboard.Types.{DashboardLinkGroup}
use cupboard.Dashboard.Groups.{normalized_groups, text}
use cupboard.Dashboard.Groups.Access.{HasGroup}
use cupboard.Dashboard.Groups.Normalized.{names_of, normalized_groups_iff}
use cupboard.Text.Trim.{is_blank}
use cupboard.Kube.Bookmark.{UrlSource}
use cupboard.Webhook.Host.{first_host, https_url}
use cupboard.Webhook.UrlResolver.{resolve_url_from_source, resolve_ingress_url}
use cupboard.Webhook.UrlResolver.Laws.{IsWebUrl, resolve_url_from_source-IsWebUrl}
use cupboard.Tests.Fixtures.{reader, tools, ascii}

normalized_groups_iff_example :
    Any (λ x. x ≡ codes "staff") (normalized_groups (text (codes "admins, staff,,staff")))
    ↔ HasGroup (names_of (text (codes "admins, staff,,staff"))) (codes "staff")
normalized_groups_iff_example =
    normalized_groups_iff (text (codes "admins, staff,,staff")) (codes "staff")

abbrev details : GoMap DashboardLinkGroup
details = (codes "dev-tools", record tools { name = codes "dev-tools" }) ∷ []

abbrev wiki_source : UrlSource
wiki_source = record {
  ingress_ref = some (record { name = codes "wiki" });
  route_ref = none;
  ingress_route_ref = none;
  http_route_ref = none;
  grpc_route_ref = none;
  service_ref = none;
}

resolve_url_from_source-IsWebUrl_example : IsWebUrl (codes "https://wiki.example.com")
unfolding resolve_url_from_source resolve_ingress_url first_host is_blank trim_space https_url ◌==◌
resolve_url_from_source-IsWebUrl_example =
    resolve_url_from_source-IsWebUrl reader (codes "docs") (some wiki_source)
      (codes "https://wiki.example.com") refl
