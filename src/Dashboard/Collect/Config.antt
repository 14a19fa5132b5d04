-- ===== src/Dashboard/Collect/Config.antt =====
-- `initLinkGroups` and `collectStaticLinks`: what the configuration file declares.
use cupboard.Prelude.{false, List, [], ◌∷◌, if◌then◌else◌}
use cupboard.Text.{codes, ◌==◌}
use cupboard.Text.Trim.{trim_space}
use cupboard.Text.Case.{Unicode}
use cupboard.GoMap.{GoMap, insert}
use cupboard.Dashboard.Types.{DashboardLinkGroup, LinkGroup, StaticLink}
use cupboard.Dashboard.Meta.{first_non_empty, default_target, or_else}
use cupboard.Dashboard.Groups.{normalized_groups, strings}
use cupboard.Dashboard.Maps.{Maps, add_link, resolve_link_group_name}
use cupboard.Dashboard.Collector.{for_items}

-- The body of the loop of `initLinkGroups`.
unfoldable pub init_link_group : LinkGroup → GoMap DashboardLinkGroup → GoMap DashboardLinkGroup
unfolding or_else
init_link_group group result =
    let name = trim_space group.name in
    if name == codes ""
    then result
    else insert name
        (record {
          name = name;
          priority = group.priority;
          priority_class = trim_space group.priority_class;
          display_name = or_else (trim_space group.display_name) name;
          source = codes "local";
          properties = [];
          replicate = false;
        })
        result

unfoldable pub init_from : List LinkGroup → GoMap DashboardLinkGroup → GoMap DashboardLinkGroup
unfolding init_link_group
init_from [] result = result
init_from (group ∷ groups) result = init_from groups (init_link_group group result)

-- `initLinkGroups`
unfoldable pub init_link_groups : List LinkGroup → GoMap DashboardLinkGroup
unfolding init_from
init_link_groups groups = init_from groups []

module _ ⦃u : Unicode⦄ where
  -- The body of the loop of `collectStaticLinks`.
  unfoldable pub add_static_link : StaticLink → Maps → Maps
  add_static_link link m =
      let group_name =
        resolve_link_group_name
          (first_non_empty (trim_space link.link_group ∷ trim_space link.group ∷ [])) m.details in
      let name = trim_space link.name in
      let url = trim_space link.url in
      if group_name == codes ""
      then m
      else if name == codes ""
      then m
      else if url == codes ""
      then m
      else add_link group_name
          (record {
            name = name;
            link_group = codes "";
            url = url;
            target = default_target link.target;
            icon = trim_space link.icon;
            source = codes "static";
            metadata = codes "";
            groups = normalized_groups (strings link.groups);
            replicate = false;
          })
          m

  -- `collectStaticLinks`
  unfoldable pub collect_static_links : List StaticLink → Maps → Maps
  unfolding for_items add_static_link
  collect_static_links links m = for_items add_static_link links m
