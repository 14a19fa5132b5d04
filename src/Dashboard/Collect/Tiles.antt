-- ===== src/Dashboard/Collect/Tiles.antt =====
-- `collectInfoTiles`.
use cupboard.Prelude.{◌++◌, err, ok, List, Result, if◌then◌else◌}
use cupboard.Text.{codes}
use cupboard.Text.Trim.{trim_space}
use cupboard.GoMap.{has, insert}
use cupboard.Kube.{KubeError}
use cupboard.Kube.InfoTile.{InfoTile}
use cupboard.Kube.Reader.{Reader}
use cupboard.Dashboard.Types.{DashboardInfoTile}
use cupboard.Dashboard.Meta.{default_target, or_else}
use cupboard.Dashboard.Maps.{Maps, append_at, named_group}
use cupboard.Dashboard.Collector.{Collector, collect_list}

unfoldable pub info_tile : InfoTile → DashboardInfoTile
info_tile item = record {
  name = item.spec.name;
  icon = item.spec.icon;
  url = item.spec.url;
  target = default_target item.spec.target;
  source = item.spec.source;
  content = item.status.content;
  replicate = item.spec.replicate;
}

-- The body of the loop.
unfoldable pub add_info_tile : InfoTile → Maps → Maps
add_info_tile item m =
    let name = or_else (trim_space item.spec.group) item.meta.name in
    record m {
      details =
          if has name m.details
          then m.details
          else insert name (named_group name (codes "infotile")) m.details;
      tiles = append_at name (info_tile item) m.tiles;
    }

-- `fmt.Errorf("list InfoTiles: %w", err)`; what the error is asked is what the wrapped one is asked.
unfoldable pub wrap_error : Result KubeError (List InfoTile) → Result KubeError (List InfoTile)
wrap_error (ok items) = ok items
wrap_error (err e) = err (record e { message = codes "list InfoTiles: " ++ e.message })

-- `collectInfoTiles`
unfoldable pub collect_info_tiles : Reader → Collector
unfolding wrap_error
collect_info_tiles c = collect_list (wrap_error c.list_info_tiles) add_info_tile
