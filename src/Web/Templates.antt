-- ===== src/Web/Templates.antt =====
-- web/templates.go: where the page templates are read from.
pub mod Fallback
pub mod Functions
pub mod Icons
pub mod Laws
use cupboard.Prelude.{
  Bool, true, false, ◌||◌, not, List, [], ◌∷◌, ◌++◌, Option, none, some, Result, ok, err,
  if◌then◌else◌,
}
use cupboard.Text.{Text, codes, ◌==◌}
use cupboard.Text.Trim.{trim_space, is_blank}
use cupboard.Text.Search.{contains, has_prefix}
use cupboard.Text.Split.{split}
use cupboard.Web.Path.{join}

-- `fs.ReadFile`: the contents, `fs.ErrNotExist`, or another error.
pub data ReadResult : Type 0 where
  contents : Text → ReadResult
  absent : ReadResult
  broken : Text → ReadResult

-- `filesystemTemplateFS` and `templateFS`
pub record Sources : Type 0 where
  pub filesystem : Text → ReadResult
  pub embedded : Text → ReadResult

pub data TemplateError : Type 0 where
  -- "must use slash-separated paths", "contains an invalid path segment" and "escapes templates
  -- directory"
  backslash invalid_segment escapes : Text → TemplateError
  -- `"read %s template %q: %w"`, and "not found in filesystem set ..."
  unreadable : Text → Text → Text → TemplateError
  not_found : Text → Text → TemplateError
  -- `"parse template %q from set %q: %w"`
  unparsable : Text → Text → Text → TemplateError

-- `pageTemplateFileNames`
abbrev pub page_template_file_names : List Text
page_template_file_names =
    codes "page"
    ∷ codes "header"
    ∷ codes "footer"
    ∷ codes "content"
    ∷ codes "group"
    ∷ codes "link"
    ∷ codes "tile"
    ∷ []

-- `part == "" || part == "." || part == ".."`
abbrev pub is_invalid_part : Text → Bool
is_invalid_part part = part == [] || part == codes "." || part == codes ".."

unfoldable pub has_invalid_part : List Text → Bool
has_invalid_part [] = false
has_invalid_part (part ∷ parts) = is_invalid_part part || has_invalid_part parts

-- `pageTemplatePath`
unfoldable pub page_template_path : Text → Text → Result TemplateError Text
unfolding has_invalid_part
page_template_path set name =
    let template_path = join (codes "templates" ∷ set ∷ (name ++ codes ".tmpl") ∷ []) in
    if contains set (codes "\\")
    then err (backslash set)
    else if has_invalid_part (split set b'/')
    then err (invalid_segment set)
    else if not (has_prefix template_path (codes "templates/"))
    then err (escapes template_path)
    else ok template_path

-- A place where a template may be: the name of the source, its files, and the path.
pub record Candidate : Type 0 where
  pub source : Text
  pub read : Text → ReadResult
  pub path : Text

-- The loop over the candidates: the first that is there counts.
unfoldable pub read_candidates : List Candidate → TemplateError → Result TemplateError Text
read_candidates [] failure = err failure
read_candidates (c ∷ cs) failure = elim (c.read c.path) [
  | contents text ↦ ok text
  | absent ↦ read_candidates cs failure
  | broken e ↦ err (unreadable c.source c.path e)
]

-- The candidates of a template.
unfoldable pub candidates : Sources → Text → Text → List Candidate
candidates s selected_path default_path =
    let default_set : Candidate = record {
      source = codes "embedded default set";
      read = s.embedded;
      path = default_path;
    } in
    record { source = codes "filesystem"; read = s.filesystem; path = selected_path }
    ∷ record { source = codes "embedded selected set"; read = s.embedded; path = selected_path }
    ∷ (if selected_path == default_path then [] else default_set ∷ [])

-- Both paths, the first error first.
unfoldable pub read_paths :
    Sources
    → Text
    → Text
    → Result TemplateError Text
    → Result TemplateError Text
    → Result TemplateError Text
read_paths s set name (err e) default_path = err e
read_paths s set name (ok selected_path) (err e) = err e
read_paths s set name (ok selected_path) (ok default_path) =
    read_candidates (candidates s selected_path default_path) (not_found name set)

-- `readPageTemplateFile`
unfoldable pub read_page_template_file : Sources → Text → Text → Result TemplateError Text
read_page_template_file s set name =
    read_paths s set name (page_template_path set name) (page_template_path (codes "default") name)

-- The templates that are parsed, each under its name.
abbrev pub Parsed : Type 0
Parsed = List (Text × Text)

-- `Parse` on the text of a template: its error, if any.
abbrev pub Parse : Type 0
Parse = Text → Text → Option Text

-- "page" itself, or the name behind an underscore.
abbrev pub target : Text → Text
target name = if name == codes "page" then name else codes "_" ++ name

unfoldable pub parse_one :
    Parse
    → Text
    → Text
    → Result TemplateError Text
    → Result TemplateError Parsed
    → Result TemplateError Parsed
parse_one parse set name (err e) rest = err e
parse_one parse set name (ok text) rest = elim (parse (target name) text) [
  | some e ↦ err (unparsable name set e)
  | none ↦ elim rest [ err e ↦ err e | ok parsed ↦ ok ((target name, text) ∷ parsed) ]
]

-- The loop over the names.
unfoldable pub parse_all : Sources → Parse → Text → List Text → Result TemplateError Parsed
parse_all s parse set [] = ok []
parse_all s parse set (name ∷ names) =
    parse_one parse set name (read_page_template_file s set name) (parse_all s parse set names)

-- The set that is selected.
unfoldable pub selected_set : Text → Text
selected_set set = if trim_space set == codes "" then codes "default" else trim_space set

-- `loadPageTemplate`
unfoldable pub load_page_template : Sources → Parse → Text → Result TemplateError Parsed
load_page_template s parse set = parse_all s parse (selected_set set) page_template_file_names
