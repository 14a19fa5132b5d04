-- ===== src/Web/Path.antt =====
-- `path.Clean` and `path.Join`, on the parts of a path between slashes.
pub mod Laws
use cupboard.Prelude.{Bool, true, false, ◌||◌, List, [], ◌∷◌, ◌++◌, if◌then◌else◌, ◌==◌ as nat_eq}
use cupboard.Prelude.Lists.{keep}
use cupboard.Text.{Text, codes, ◌==◌}
use cupboard.Text.Split.{split}

-- The parts with a slash between two.
unfoldable pub join_slash : List Text → Text
join_slash [] = []
join_slash (part ∷ []) = part
join_slash (part ∷ next ∷ parts) = part ++ b'/' ∷ join_slash (next ∷ parts)

-- The parts of the result, the last first, after a part "..".
unfoldable pub parent : Bool → List Text → List Text
parent rooted [] = if rooted then [] else codes ".." ∷ []
parent rooted (part ∷ out) = if part == codes ".." then codes ".." ∷ part ∷ out else out

-- `Clean` passes over empty parts and ".", goes back at "..", and keeps the others.
unfoldable pub clean_parts : Bool → List Text → List Text → List Text
unfolding parent
clean_parts rooted out [] = out
clean_parts rooted out (part ∷ parts) =
    clean_parts rooted
      (if part == [] || part == codes "."
        then out
        else if part == codes ".."
        then parent rooted out
        else part ∷ out)
      parts

unfoldable pub is_rooted : Text → Bool
is_rooted [] = false
is_rooted (c ∷ s) = nat_eq c b'/'

unfoldable pub backwards : List Text → List Text → List Text
backwards [] out = out
backwards (part ∷ parts) out = backwards parts (part ∷ out)

-- The result of `Clean`, from its parts.
unfoldable pub assemble : Bool → List Text → Text
unfolding join_slash
assemble true parts = b'/' ∷ join_slash parts
assemble false [] = codes "."
assemble false (part ∷ parts) = join_slash (part ∷ parts)

-- `path.Clean`
unfoldable pub clean : Text → Text
clean s = assemble (is_rooted s) (backwards (clean_parts (is_rooted s) [] (split s b'/')) [])

is_some_text : Text → Bool
is_some_text [] = false
is_some_text (c ∷ s) = true

cleaned : List Text → Text
cleaned [] = codes ""
cleaned (part ∷ parts) = clean (join_slash (part ∷ parts))

-- `path.Join`
unfoldable pub join : List Text → Text
unfolding is_some_text cleaned
join elements = cleaned (keep is_some_text elements)
