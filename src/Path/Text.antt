-- ===== src/Path/Text.antt =====
-- The pieces of a path name that `__realpathat` of path_resolution.c works on: the scans over its
-- stack of remaining components, and the ends of its output buffer. The loops are the source's
-- pointer loops, as recursions on the text.
use iamroot.Base.{
  ◌+◌, ◌≤◌, ◌≡◌, Bool, true, false, not, ◌&&◌, ◌||◌, [], ◌∷◌, ◌++◌, some, arith, ltb, ◌==◌,
  if◌then◌else◌, length, last?, drop_last,
}
use iamroot.Base.Bytes.{Bytes, slash}

-- p += slash_len(stack+p)
unfoldable pub skip_slashes : Bytes → Bytes
skip_slashes [] = []
skip_slashes (c ∷ s) = let rest = skip_slashes s in if c == slash then rest else c ∷ s

-- What stands before `__strchrnul(stack+p, '/')`.
unfoldable pub component : Bytes → Bytes
component [] = []
component (c ∷ s) = let rest = component s in if c == slash then [] else c ∷ rest

-- What stands from there on.
unfoldable pub after : Bytes → Bytes
after [] = []
after (c ∷ s) = let rest = after s in if c == slash then c ∷ s else rest

pub length-skip_slashes-le : (s : Bytes) → length (skip_slashes s) ≤ length s
unfolding skip_slashes
length-skip_slashes-le [] = omega arith
length-skip_slashes-le (c ∷ s) = ground (arith, length-skip_slashes-le s)

pub length-component-after : (s : Bytes) → length (component s) + length (after s) ≡ length s
unfolding component after
length-component-after [] = omega arith
length-component-after (c ∷ s) = ground (arith, length-component-after s)

-- No byte of the text is a slash.
abbrev pub NoSlash : Bytes → Type 0
NoSlash [] = Unit
NoSlash (c ∷ s) = ((c == slash) ≡ false) × NoSlash s

pub component-NoSlash : (s : Bytes) → NoSlash (component s)
unfolding component
component-NoSlash [] = tt
component-NoSlash (c ∷ s) = ground (arith, component-NoSlash s)

-- The text up to its last slash, which is kept: while (q && output[q-1] != '/') q--;
unfoldable pub up_to_slash : Bytes → Bytes
up_to_slash [] = []
up_to_slash (c ∷ s) = elim (up_to_slash s) [
  | [] ↦ if c == slash then c ∷ [] else []
  | d ∷ r ↦ c ∷ d ∷ r
]

abbrev pub is_slash : Bytes → Bool
is_slash [] = false
is_slash (c ∷ s) = c == slash

-- output[q-1] == '/'
abbrev pub ends_in_slash : Bytes → Bool
ends_in_slash s = elim (last? s) [ some c ↦ c == slash | _ ↦ false ]

-- if (q>1 && (q>2 || output[0]!='/')) q--;
unfoldable pub drop_separator : Bytes → Bytes
drop_separator out =
    if ltb 1 (length out) && (ltb 2 (length out) || not (is_slash out)) then drop_last out else out

-- The whole of the `up` branch.
unfoldable pub pop : Bytes → Bytes
unfolding up_to_slash drop_separator
pop out = drop_separator (up_to_slash out)

-- What is copied behind the output: the component, with a separator where one is missing.
unfoldable pub piece : Bytes → Bytes → Bytes
piece [] c = c
piece (o ∷ out) c = if ends_in_slash (o ∷ out) then c else slash ∷ c

-- The output with the next component on it.
unfoldable pub join : Bytes → Bytes → Bytes
unfolding piece
join out c = out ++ piece out c

abbrev pub is_nil : Bytes → Bool
is_nil [] = true
is_nil (c ∷ s) = false
