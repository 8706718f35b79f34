-- ===== src/Path/Sanitize.antt =====
-- `__path_sanitize` of path_resolution.c.
pub mod Laws
pub mod Below
pub mod Names
use iamroot.Base.{◌≡◌, ◌&&◌, not, List, [], ◌∷◌, reverse, ◌==◌, if◌then◌else◌}
use iamroot.Base.Bytes.{Bytes, slash, dot}

-- while ((len > 3) && __strneq(path, "./") && path[2] != '/')
pub strip_leading : Bytes → Bytes
strip_leading (a ∷ b ∷ c ∷ d ∷ s) =
    let rest = strip_leading (c ∷ d ∷ s) in
    if a == dot && b == slash && not (c == slash) then rest else a ∷ b ∷ c ∷ d ∷ s
strip_leading s = s

-- while ((len > 2) && __strneq(&path[len-2], "/.")), on the text read backwards
pub strip_dots : Bytes → Bytes
strip_dots (a ∷ b ∷ c ∷ s) =
    let rest = strip_dots (c ∷ s) in if a == dot && b == slash then rest else a ∷ b ∷ c ∷ s
strip_dots s = s

-- while ((len > 1) && (path[len-1] == '/')), on the text read backwards
pub strip_slashes : Bytes → Bytes
strip_slashes (a ∷ b ∷ s) =
    let rest = strip_slashes (b ∷ s) in if a == slash then rest else a ∷ b ∷ s
strip_slashes s = s

-- The whole function on the text of its buffer. Its last test, for a length of 0, never holds
-- behind the first one, since each loop leaves a byte.
unfoldable pub path_sanitize : Bytes → Bytes
unfolding strip_leading strip_dots strip_slashes
path_sanitize [] = []
path_sanitize (c ∷ s) = reverse (strip_slashes (strip_dots (reverse (strip_leading (c ∷ s)))))
