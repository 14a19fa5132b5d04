-- ===== src/Tests/Merges.antt =====
-- Merging the data of a peer and of a foreign cluster.
use cupboard.Prelude.{[], ◌∷◌}
use cupboard.Text.{codes}
use cupboard.GoMap.{GoMap}
use cupboard.Dashboard.Types.{DashboardResponse}
use cupboard.Dashboard.Maps.{Maps}
use cupboard.Dashboard.Merge.{merge_remote_data, merge_foreign_cluster_data}
use cupboard.Dashboard.Merge.Laws.{
  OnlyAdds, IsSynced, IsForeign, merge_remote_data-OnlyAdds, merge_foreign_cluster_data-OnlyAdds,
}
use cupboard.Tests.Fixtures.{tools, manual, peer_response, fleet, ascii}

abbrev local : Maps
local = record {
  groups = (codes "tools", manual ∷ []) ∷ [];
  details = (codes "tools", tools) ∷ [];
  tiles = [];
}

abbrev peers : GoMap DashboardResponse
peers = (codes "https://peer", peer_response) ∷ []

merge_remote_data-OnlyAdds_example : OnlyAdds IsSynced local (merge_remote_data peers local)
merge_remote_data-OnlyAdds_example = merge_remote_data-OnlyAdds peers local

merge_foreign_cluster_data-OnlyAdds_example :
    OnlyAdds IsForeign local (merge_foreign_cluster_data fleet local)
merge_foreign_cluster_data-OnlyAdds_example = merge_foreign_cluster_data-OnlyAdds fleet local
