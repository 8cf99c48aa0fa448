-- ===== src/Paths.antt =====
-- The elements of a path name: `skipelem` of kernel/fs.c.
-- A text is the list of its characters up to the 0 byte; an element is what the buffer `name` holds,
-- up to its 0 byte or its end.
pub mod Fields
mod Tests
use so_final_proyect.Prelude.{
  ℕ, ◌≡◌, Bool, true, false, Option, none, some, ◌==◌, if◌then◌else◌, List, [], ◌∷◌, take,
}

-- DIRSIZ of kernel/fs.h.
abbrev pub dirsiz : ℕ
dirsiz = 14

-- '/'
abbrev pub slash : ℕ
slash = 47

-- `while(*path == '/') path++;`
pub skip_slashes : List ℕ → List ℕ
skip_slashes [] = []
skip_slashes (c ∷ cs) = let rest = skip_slashes cs in if c == slash then rest else c ∷ cs

-- `while(*path != '/' && *path != 0) path++;`, with what it passed.
pub element_end : List ℕ → List ℕ × List ℕ
element_end [] = ([], [])
element_end (c ∷ cs) =
    let (passed, rest) = element_end cs in if c == slash then ([], c ∷ cs) else (c ∷ passed, rest)

-- The element and the rest of the path, or nothing for a path without an element.
abbrev pub cut_element : List ℕ → Option (List ℕ × List ℕ)
cut_element [] = none
cut_element (c ∷ cs) =
    let (element, rest) = element_end (c ∷ cs) in some (take dirsiz element, skip_slashes rest)

pub skipelem : List ℕ → Option (List ℕ × List ℕ)
unfolding skip_slashes element_end
skipelem path = cut_element (skip_slashes path)
