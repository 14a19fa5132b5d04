-- ===== src/Web/Templates/Laws.antt =====
-- A template path stays in its set, and a set is loaded with the default templates behind it.
use cupboard.Prelude.{◌≢◌, false, List, [], ◌∷◌, ◌++◌, ok, ◌≡◌, refl, arith, ◌∙◌, ◌≢◌}
use cupboard.Prelude.Lists.{All, All-append}
use cupboard.Text.{Text, codes, ◌==◌}
use cupboard.Text.Split.{split, Lacks}
use cupboard.Web.Path.{join, is_rooted}
use cupboard.Web.Path.Laws.{join_three, IsPlain, clean_plain, split-slash, split_one}
use cupboard.Web.Templates.{page_template_path, has_invalid_part}

-- The path of a template in its set.
abbrev pub path_in_set : Text → Text → Text
path_in_set set name = codes "templates/" ++ (set ++ (codes "/" ++ (name ++ codes ".tmpl")))

has_invalid_part-IsPlain : (parts : List Text) → has_invalid_part parts ≡ false → All IsPlain parts
unfolding has_invalid_part
has_invalid_part-IsPlain [] h = tt
has_invalid_part-IsPlain (p ∷ parts) h =
    (ground arith, has_invalid_part-IsPlain parts (ground arith))

Lacks-tmpl : (name : Text) → Lacks b'/' name → Lacks b'/' (name ++ codes ".tmpl")
Lacks-tmpl name h = All-append (λ c. c ≢ b'/') name (codes ".tmpl") h (omega arith)

ends_in_tmpl : (s : Text) → (s ++ codes ".tmpl" == []) ≡ false
unfolding ◌==◌
ends_in_tmpl [] = refl
ends_in_tmpl (c ∷ s) = refl

file-IsPlain : (name : Text) → IsPlain (name ++ codes ".tmpl")
unfolding ◌==◌
file-IsPlain [] = (refl, refl, refl)
file-IsPlain (c ∷ []) = ground arith
file-IsPlain (c ∷ d ∷ s) = ground (arith, ends_in_tmpl s)

set_not_nil : (set : Text) → has_invalid_part (split set b'/') ≡ false → (set == []) ≡ false
unfolding has_invalid_part split ◌==◌
set_not_nil [] h = absurd (cc)
set_not_nil (c ∷ s) h = refl

path_in_set-IsPlain :
    (set name : Text)
    → has_invalid_part (split set b'/') ≡ false
    → Lacks b'/' name
    → All IsPlain (split (path_in_set set name) b'/')
path_in_set-IsPlain set name h l =
    rw
      (
        split-slash (codes "templates") (set ++ b'/' ∷ (name ++ codes ".tmpl")),
        split-slash set (name ++ codes ".tmpl"),
        split_one (name ++ codes ".tmpl") (Lacks-tmpl name l),
      )
      (All-append IsPlain (split (codes "templates") b'/') _
        (unfold split ◌==◌ in ((refl, refl, refl), tt))
        (All-append IsPlain (split set b'/') _ (has_invalid_part-IsPlain (split set b'/') h)
          (file-IsPlain name, tt)))

pub joined :
    (set name : Text)
    → has_invalid_part (split set b'/') ≡ false
    → Lacks b'/' name
    → join (codes "templates" ∷ set ∷ (name ++ codes ".tmpl") ∷ []) ≡ path_in_set set name
joined set name h l =
    join_three (codes "templates") set (name ++ codes ".tmpl") (unfold ◌==◌ in refl)
      (set_not_nil set h) (ends_in_tmpl name)
    ∙ clean_plain (path_in_set set name) (unfold is_rooted in refl)
        (path_in_set-IsPlain set name h l)

-- A template path that is returned is "templates/", the set, a slash, and the name with ".tmpl", for
-- a name without a slash, and no part of the set is empty, "." or "..".
pub page_template_path-confined :
    (set name path : Text)
    → Lacks b'/' name
    → page_template_path set name ≡ ok path
    → (path ≡ path_in_set set name) × All IsPlain (split set b'/')
unfolding page_template_path
page_template_path-confined set name path l h =
    ground (arith, joined set name, has_invalid_part-IsPlain (split set b'/'))
