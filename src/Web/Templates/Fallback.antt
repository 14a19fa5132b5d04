-- ===== src/Web/Templates/Fallback.antt =====
-- A set is loaded with the default templates behind it.
use cupboard.Prelude.{
  false, List, [], ◌∷◌, ◌++◌, Result, ok, err, ◌≡◌, ◌≢◌, ◌⊎◌, ◌↔◌, refl, arith, Bool-cases,
  Option-cases, inl, inr, none, if◌then◌else◌,
}
use cupboard.Prelude.Lists.{All}
use cupboard.Text.{Text, codes, ◌==◌, eq_iff}
use cupboard.Text.Trim.{trim_space}
use cupboard.Text.Search.{contains, has_prefix-append}
use cupboard.Text.Split.{split, Lacks}
use cupboard.Web.Templates.{
  selected_set, page_template_file_names, load_page_template, TemplateError, Sources, Candidate,
  ReadResult, contents, absent, broken, page_template_path, has_invalid_part, read_candidates,
  candidates, read_paths, read_page_template_file, Parse, Parsed, target, parse_one, parse_all,
}
use cupboard.Web.Templates.Laws.{path_in_set, joined}

-- A set that a path can be made from.
abbrev pub IsValidSet : Text → Type 0
IsValidSet set = (contains set (codes "\\") ≡ false) × (has_invalid_part (split set b'/') ≡ false)

-- The set that is loaded: the one that is configured, trimmed, or the default one if it is blank.
abbrev pub IsChosen : Text → Text → Type 0
IsChosen set chosen =
    ((trim_space set ≡ chosen) × (chosen ≢ []))
    ⊎ ((trim_space set ≡ []) × (chosen ≡ codes "default"))

-- The text at one of the two paths: the first that is there, in the file system under the path of the
-- set, embedded under it, or embedded under the default path.
abbrev pub IsFirst : Sources → Text → Text → Text → Type 0
IsFirst s selected default text =
    (s.filesystem selected ≡ contents text)
    ⊎ ((s.filesystem selected ≡ absent)
        × ((s.embedded selected ≡ contents text)
            ⊎ ((s.embedded selected ≡ absent) × (s.embedded default ≡ contents text))))

page_template_path-valid :
    (set name : Text)
    → IsValidSet set
    → Lacks b'/' name
    → page_template_path set name ≡ ok (path_in_set set name)
unfolding page_template_path
page_template_path-valid set name (b, i) l =
    rw
      (
        b,
        i,
        joined set name i l,
        has_prefix-append (codes "templates/") (set ++ (codes "/" ++ (name ++ codes ".tmpl"))),
      )
      refl

candidate_iff :
    (c : Candidate) (cs : List Candidate) (failure : TemplateError) (text : Text) (r : ReadResult)
    → c.read c.path ≡ r
    → (read_candidates (c ∷ cs) failure ≡ ok text) ↔ (
        (c.read c.path ≡ contents text)
        ⊎ ((c.read c.path ≡ absent) × (read_candidates cs failure ≡ ok text)))
unfolding read_candidates
candidate_iff c cs failure text (contents found) e = rw e (ground arith)
candidate_iff c cs failure text absent e = rw e (ground arith)
candidate_iff c cs failure text (broken b) e = rw e (ground arith)

no_candidate_iff :
    (failure : TemplateError) (text : Text) → (read_candidates [] failure ≡ ok text) ↔ ⊥
unfolding read_candidates
no_candidate_iff failure text = (λ h. absurd (ground arith), λ h. absurd h)

candidates_iff :
    (s : Sources) (selected default : Text) (failure : TemplateError) (text : Text)
    → (read_candidates (candidates s selected default) failure ≡ ok text)
      ↔ IsFirst s selected default text
unfolding candidates
candidates_iff s selected default failure text =
    let in_files : Candidate = record {
      source = codes "filesystem";
      read = s.filesystem;
      path = selected;
    } in
    let in_set : Candidate = record {
      source = codes "embedded selected set";
      read = s.embedded;
      path = selected;
    } in
    let in_default : Candidate = record {
      source = codes "embedded default set";
      read = s.embedded;
      path = default;
    } in
    elim (Bool-cases (selected == default)) [
      | inl e ↦
          let same : selected ≡ default = (eq_iff selected default).0 e in
          rw (candidates, e)
            (ground (
              arith,
              same,
              candidate_iff in_files (in_set ∷ []) failure text (s.filesystem selected) refl,
              candidate_iff in_set [] failure text (s.embedded selected) refl,
              no_candidate_iff failure text,
            ))
      | inr e ↦
          rw (candidates, e)
            (ground (
              arith,
              candidate_iff in_files (in_set ∷ in_default ∷ []) failure text (s.filesystem selected)
                  refl,
              candidate_iff in_set (in_default ∷ []) failure text (s.embedded selected) refl,
              candidate_iff in_default [] failure text (s.embedded default) refl,
              no_candidate_iff failure text,
            ))
    ]

read_page_template_file_iff :
    (s : Sources) (set name text : Text)
    → IsValidSet set
    → IsValidSet (codes "default")
    → Lacks b'/' name
    → (read_page_template_file s set name ≡ ok text)
      ↔ IsFirst s (path_in_set set name) (path_in_set (codes "default") name) text
unfolding read_page_template_file read_paths
read_page_template_file_iff s set name text v d l =
    rw (page_template_path-valid set name v l, page_template_path-valid (codes "default") name d l)
      (candidates_iff s (path_in_set set name) (path_in_set (codes "default") name)
        (TemplateError.not_found name set) text)

-- What is loaded of a set: for each name, in the order of the names, the first text that is there, if
-- it parses, under "page" or under the name behind an underscore.
abbrev pub IsLoaded : Sources → Parse → Text → List Text → Parsed → Type 0
IsLoaded s parse set [] [] = Unit
IsLoaded s parse set [] (t ∷ ts) = ⊥
IsLoaded s parse set (name ∷ names) [] = ⊥
IsLoaded s parse set (name ∷ names) ((label, text) ∷ rest) =
    (label ≡ (if name == codes "page" then name else codes "_" ++ name))
    × IsFirst s (path_in_set set name) (path_in_set (codes "default") name) text
    × (parse label text ≡ none)
    × IsLoaded s parse set names rest

parse_one_iff :
    (parse : Parse) (set name : Text) (read : Result TemplateError Text)
    (rest : Result TemplateError Parsed) (label text : Text) (parsed : Parsed)
    → (parse_one parse set name read rest ≡ ok ((label, text) ∷ parsed))
      ↔ ((label ≡ target name) × (read ≡ ok text) × (parse label text ≡ none) × (rest ≡ ok parsed))
unfolding parse_one
parse_one_iff parse set name (err e) rest label text parsed = ground arith
parse_one_iff parse set name (ok found) (err e) label text parsed =
    elim (Option-cases (parse (target name) found)) [
      | inl p ↦ rw (parse_one, p) (ground arith)
      | inr (e, p) ↦ rw (parse_one, p) (ground arith)
    ]
parse_one_iff parse set name (ok found) (ok others) label text parsed =
    elim (Option-cases (parse (target name) found)) [
      | inl p ↦ rw (parse_one, p) (ground arith)
      | inr (e, p) ↦ rw (parse_one, p) (ground arith)
    ]

parse_one-cons :
    (parse : Parse) (set name : Text) (read : Result TemplateError Text)
    (rest : Result TemplateError Parsed)
    → parse_one parse set name read rest ≢ ok []
unfolding parse_one
parse_one-cons parse set name (err e) rest h = absurd (ground arith)
parse_one-cons parse set name (ok found) (err e) h =
    elim (Option-cases (parse (target name) found)) [
      | inl p ↦ absurd (ground (arith, rw (parse_one, p) at h))
      | inr (e, p) ↦ absurd (ground (arith, rw (parse_one, p) at h))
    ]
parse_one-cons parse set name (ok found) (ok others) h =
    elim (Option-cases (parse (target name) found)) [
      | inl p ↦ absurd (ground (arith, rw (parse_one, p) at h))
      | inr (e, p) ↦ absurd (ground (arith, rw (parse_one, p) at h))
    ]

parse_all_iff :
    (s : Sources) (parse : Parse) (set : Text) (names : List Text) (parsed : Parsed)
    → IsValidSet set
    → IsValidSet (codes "default")
    → All (Lacks b'/') names
    → (parse_all s parse set names ≡ ok parsed) ↔ IsLoaded s parse set names parsed
unfolding parse_all
parse_all_iff s parse set [] [] v d l = (λ h. tt, λ h. refl)
parse_all_iff s parse set [] (t ∷ ts) v d l = (λ h. absurd (ground arith), λ h. absurd h)
parse_all_iff s parse set (name ∷ names) [] v d l =
    (λ h. absurd (parse_one-cons parse set name _ _ h), λ h. absurd h)
parse_all_iff s parse set (name ∷ names) ((label, text) ∷ parsed) v d (lacks, l) =
    let read = read_page_template_file s set name in
    let others = parse_all s parse set names in
    let one : (parse_one parse set name read others ≡ ok ((label, text) ∷ parsed)) ↔ (
        (label ≡ target name)
        × (read ≡ ok text)
        × (parse label text ≡ none)
        × (others ≡ ok parsed)) =
      parse_one_iff parse set name read others label text parsed in
    let text_of : (read ≡ ok text)
        ↔ IsFirst s (path_in_set set name) (path_in_set (codes "default") name) text =
      read_page_template_file_iff s set name text v d lacks in
    let rest : (others ≡ ok parsed) ↔ IsLoaded s parse set names parsed =
      parse_all_iff s parse set names parsed v d l in
    (
      λ h. let (e, t, p, r) = one.0 h in (e, text_of.0 t, p, rest.0 r),
      λ (e, t, p, r). one.1 (e, text_of.1 t, p, rest.1 r),
    )

default-IsValidSet : IsValidSet (codes "default")
unfolding contains has_invalid_part split ◌==◌
default-IsValidSet = (refl, refl)

no_slashes : All (Lacks b'/') page_template_file_names
no_slashes = omega arith

selected_set-IsChosen : (set chosen : Text) → IsChosen set chosen → selected_set set ≡ chosen
unfolding selected_set
selected_set-IsChosen set chosen (inl (e, n)) = ground (arith, eq_iff (trim_space set) (codes ""))
selected_set-IsChosen set chosen (inr (e, d)) = ground (arith, eq_iff (trim_space set) (codes ""))

-- Loading a set with a valid name returns templates exactly if they are those of its seven files: each
-- file is the first that is there, in the file system or embedded under the set, or embedded in the
-- default set, and it parses. A set whose name is blank is the default one.
pub load_page_template_iff :
    (s : Sources) (parse : Parse) (set chosen : Text) (parsed : Parsed)
    → IsChosen set chosen
    → IsValidSet chosen
    → (load_page_template s parse set ≡ ok parsed)
      ↔ IsLoaded s parse chosen page_template_file_names parsed
unfolding load_page_template
load_page_template_iff s parse set chosen parsed c v =
    rw (selected_set-IsChosen set chosen c)
      (parse_all_iff s parse chosen page_template_file_names parsed v default-IsValidSet no_slashes)
