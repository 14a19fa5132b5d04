-- ===== src/Dashboard/Meta.antt =====
-- Annotations of labelled resources: `resourceMetaFrom`, `defaultTarget`, `firstNonEmpty`.
use cupboard.Prelude.{Bool, List, [], ◌∷◌, if◌then◌else◌}
use cupboard.Text.{Text, codes, ◌==◌}
use cupboard.Text.Trim.{is_blank}
use cupboard.Kube.{ObjectMeta, text_at}
use cupboard.Kube.Bookmark.{target_self}

abbrev pub label_enabled : Text
label_enabled = codes "cupboard.netztronaut.de/enabled"

abbrev pub annotation_group : Text
annotation_group = codes "cupboard.netztronaut.de/group"

abbrev pub annotation_name : Text
annotation_name = codes "cupboard.netztronaut.de/name"

abbrev pub annotation_url : Text
annotation_url = codes "cupboard.netztronaut.de/url"

abbrev pub annotation_target : Text
annotation_target = codes "cupboard.netztronaut.de/target"

abbrev pub annotation_icon : Text
annotation_icon = codes "cupboard.netztronaut.de/icon"

abbrev pub annotation_icon_url : Text
annotation_icon_url = codes "cupboard.netztronaut.de/icon-url"

abbrev pub annotation_replicate : Text
annotation_replicate = codes "cupboard.netztronaut.de/replicate"

-- `defaultTarget`
unfoldable pub default_target : Text → Text
default_target raw = if is_blank raw then target_self else raw

-- `firstNonEmpty` and `firstNonEmptyString`: the first value that is not blank.
unfoldable pub first_non_empty : List Text → Text
first_non_empty [] = codes ""
first_non_empty (value ∷ values) = if is_blank value then first_non_empty values else value

pub record ResourceMeta : Type 0 where
  pub group : Text
  pub name : Text
  pub url : Text
  pub target : Text
  pub icon : Text
  pub replicate : Bool

-- `if s == "" { s = fallback }`
unfoldable pub or_else : Text → Text → Text
or_else s fallback = if s == codes "" then fallback else s

-- `resourceMetaFrom`
unfoldable pub resource_meta_from : ObjectMeta → ResourceMeta
unfolding or_else
resource_meta_from obj =
    let ann = obj.annotations in
    record {
      group = or_else (text_at annotation_group ann) obj.namespace;
      name = or_else (text_at annotation_name ann) obj.name;
      url = text_at annotation_url ann;
      target = default_target (text_at annotation_target ann);
      icon = first_non_empty (text_at annotation_icon ann ∷ text_at annotation_icon_url ann ∷ []);
      replicate = text_at annotation_replicate ann == codes "true";
    }
