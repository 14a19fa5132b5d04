-- ===== src/Tests/Fixtures.antt =====
-- A small cluster: two bookmark groups, three bookmarks, a labelled ingress and an info tile; a peer
-- and a foreign cluster.
use cupboard.Prelude.{Bool, true, false, List, [], ◌∷◌, Option, none, some, ok, err, refl}
use cupboard.Prelude.Int.{pos}
use cupboard.Text.{Text, codes}
use cupboard.Text.Case.{Unicode}
use cupboard.Kube.{KubeError, ObjectMeta, Ingress}
use cupboard.Kube.Bookmark.{Bookmark, BookmarkGroup}
use cupboard.Kube.InfoTile.{InfoTile}
use cupboard.Kube.Reader.{Reader, Discovery}
use cupboard.Dashboard.Types.{DashboardLink, DashboardLinkGroup, DashboardResponse}
use cupboard.Dashboard.Meta.{annotation_url, annotation_group, annotation_replicate}
use cupboard.Dashboard.Merge.{ClusterInfo}
use cupboard.Dashboard.Response.Total.{IsReadable}
use cupboard.Dashboard.Response.{DashboardCollector}

-- No character beyond ASCII has another case.
instance abbrev pub ascii : Unicode
ascii = record { to_lower_rune = λ c. c; fold_rune = λ c. c }

abbrev meta_named : Text → ObjectMeta
meta_named name = record { name = name; namespace = codes "default"; annotations = [] }

abbrev no_kind : KubeError
no_kind = record { not_found = true; denied = false; message = codes "no matches for kind" }

abbrev pub bookmark_group : Text → Bool → BookmarkGroup
bookmark_group name replicate = record {
  meta = meta_named name;
  spec = record { name = name; replicate = replicate; properties = [] };
  status = record { bookmark_count = 0; last_synced_at = none };
}

abbrev pub bookmark : Text → Text → List Text → Option Bool → Bookmark
bookmark name group groups reachable = record {
  meta = meta_named name;
  spec = record {
    group = group;
    name = name;
    url = codes "https://example.com";
    url_from = none;
    target = codes "";
    icon = codes "";
    network_restricted = false;
    replicate = false;
    groups = groups;
    properties = [];
  };
  status = record {
    url_reachable = reachable;
    last_url_check_at = none;
    url_check_error = codes "";
    last_synced_at = none;
  };
}

abbrev wiki : Ingress
wiki = record {
  meta = record {
    name = codes "wiki";
    namespace = codes "docs";
    annotations =
        (annotation_url, codes "https://wiki.example.com")
        ∷ (annotation_group, codes "docs")
        ∷ (annotation_replicate, codes "true")
        ∷ [];
  };
  hosts = codes "wiki.example.com" ∷ [];
}

abbrev pub weather : InfoTile
weather = record {
  meta = meta_named (codes "weather");
  spec = record {
    name = codes "Weather";
    group = codes "tools";
    icon = codes "";
    url = codes "";
    target = codes "";
    source = codes "";
    interval = none;
    replicate = true;
    http_request = none;
    processor = codes "";
  };
  status = record { content = codes "sunny"; last_fetched_at = none; last_error = codes "" };
}

-- The cluster knows no kind of route.
abbrev pub reader : Reader
reader = record {
  list_bookmark_groups =
      ok (bookmark_group (codes "tools") true ∷ bookmark_group (codes "docs") false ∷ []);
  list_bookmarks = ok (
      bookmark (codes "git") (codes "tools") [] (some true)
      ∷ bookmark (codes "vault") (codes "tools") (codes "admins" ∷ []) (some true)
      ∷ bookmark (codes "old") (codes "docs") [] none
      ∷ []);
  list_info_tiles = ok (weather ∷ []);
  list_forecastle_apps = err no_kind;
  list_ingresses = λ labels. ok (wiki ∷ []);
  list_services = λ labels. ok [];
  list_endpoint_slices = λ labels. ok [];
  list_unstructured = λ kind labels. err no_kind;
  get_ingress = λ namespace name. ok wiki;
  get_service = λ namespace name. err no_kind;
  get_unstructured = λ kind namespace name. err no_kind;
}

-- Every group version serves ingresses.
abbrev pub discovery : Discovery
discovery = record { server_resources = λ gv. ok (codes "Ingress" ∷ []) }

abbrev pub tools : DashboardLinkGroup
tools = record {
  name = codes "tools";
  priority = pos 1;
  priority_class = codes "first";
  display_name = codes "Tools";
  source = codes "local";
  properties = [];
  replicate = true;
}

abbrev pub docs : DashboardLinkGroup
docs = record {
  name = codes "docs";
  priority = pos 0;
  priority_class = codes "";
  display_name = codes "Docs";
  source = codes "local";
  properties = [];
  replicate = false;
}

abbrev pub manual : DashboardLink
manual = record {
  name = codes "manual";
  link_group = codes "";
  url = codes "https://manual.example.com";
  target = codes "_self";
  icon = codes "";
  source = codes "config";
  metadata = codes "";
  groups = codes "staff" ∷ [];
  replicate = true;
}

abbrev pub peer_response : DashboardResponse
peer_response = record {
  link_groups = docs ∷ [];
  groups =
      record {
        name = codes "Docs";
        link_group = codes "docs";
        links = manual ∷ [];
        tiles = [];
        source = codes "local";
      }
      ∷ [];
}

abbrev pub fleet : List ClusterInfo
fleet = record { name = codes "https://other:443"; client = reader; discovery = discovery } ∷ []

abbrev pub collector : DashboardCollector
collector = record {
  reader = reader;
  discovery = some discovery;
  forecastle_instance = codes "";
  link_groups = [];
  static_links = [];
  sync_client = some ((codes "https://peer", peer_response) ∷ []);
  foreign_clusters = some fleet;
}

-- The reader answers every call that has to be answered.
pub reader-IsReadable : IsReadable reader
reader-IsReadable = record {
  bookmark_groups = tt;
  bookmarks = tt;
  info_tiles = tt;
  ingresses = tt;
  services = tt;
  endpoint_slices = tt;
  forecastle_apps = refl;
  unstructured = λ kind. refl;
}
