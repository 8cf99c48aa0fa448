-- ===== src/Paths/Fields.antt =====
-- `skipelem` of kernel/fs.c against the fields between the slashes of a path.
use so_final_proyect.Prelude.{
  ℕ_discrete, ℕ, ◌+◌, ◌≤◌, ◌<◌, ◌≡◌, ◌≢◌, inl, inr, refl, ap, sym, ◌∙◌, arith, Bool-cases, true,
  false, Option, none, some, ◌==◌, if◌then◌else◌, List, [], ◌∷◌, take, map, length,
}
use so_final_proyect.Paths.{dirsiz, slash, skip_slashes, element_end, cut_element, skipelem}

abbrev add_char : ℕ → List (List ℕ) → List (List ℕ)
add_char c [] = (c ∷ []) ∷ []
add_char c (f ∷ fs) = (c ∷ f) ∷ fs

-- What stands between the slashes, empty fields included.
pub split : List ℕ → List (List ℕ)
split [] = [] ∷ []
split (c ∷ cs) = let rest = split cs in if c == slash then [] ∷ rest else add_char c rest

pub without_empty : List (List ℕ) → List (List ℕ)
without_empty [] = []
without_empty ([] ∷ fs) = without_empty fs
without_empty ((c ∷ f) ∷ fs) = (c ∷ f) ∷ without_empty fs

-- The names on a path: the fields that are not empty, each cut to DIRSIZ characters.
pub names : List ℕ → List (List ℕ)
unfolding split without_empty
names path = map (take dirsiz) (without_empty (split path))

-- A list with no leading slash.
abbrev pub IsClean : List ℕ → Type 0
IsClean [] = Unit
IsClean (c ∷ cs) = c ≢ slash

abbrev IsEnd : List ℕ → Type 0
IsEnd [] = Unit
IsEnd (c ∷ cs) = c ≡ slash

eq_of : {a b : ℕ} → (a == b) ≡ true → a ≡ b
eq_of h = ground arith

ne_of : {a b : ℕ} → (a == b) ≡ false → a ≢ b
ne_of h = ground arith

skip_slashes-IsClean : (path : List ℕ) → IsClean (skip_slashes path)
unfolding skip_slashes
skip_slashes-IsClean [] = tt
skip_slashes-IsClean (c ∷ cs) = elim (Bool-cases (c == slash)) [
  | inl z ↦ rw z (skip_slashes-IsClean cs)
  | inr z ↦ rw z (ne_of z)
]

skip_slashes_kept : (c : ℕ) (cs : List ℕ) → c ≢ slash → skip_slashes (c ∷ cs) ≡ c ∷ cs
unfolding skip_slashes
skip_slashes_kept c cs ne = rw (no_slash ne) refl
  where
    no_slash : c ≢ slash → (c == slash) ≡ false
    no_slash h = ground arith

skip_slashes-slash : (c : ℕ) (cs : List ℕ) → c ≡ slash → skip_slashes (c ∷ cs) ≡ skip_slashes cs
unfolding skip_slashes
skip_slashes-slash c cs e = rw (is_slash e) refl
  where
    is_slash : c ≡ slash → (c == slash) ≡ true
    is_slash h = ground arith

names-slash : (c : ℕ) (cs : List ℕ) → c ≡ slash → names (c ∷ cs) ≡ names cs
unfolding names split without_empty
names-slash c cs e = rw (is_slash e) refl
  where
    is_slash : c ≡ slash → (c == slash) ≡ true
    is_slash h = ground arith

names-skip_slashes : (path : List ℕ) → names (skip_slashes path) ≡ names path
unfolding skip_slashes
names-skip_slashes [] = refl
names-skip_slashes (c ∷ cs) = elim (ℕ_discrete c slash) [
  | yes e ↦ ap names (skip_slashes-slash c cs e) ∙ names-skip_slashes cs ∙ sym (names-slash c cs e)
  | no ne ↦ ap names (skip_slashes_kept c cs ne)
]

abbrev after_end : List ℕ → List (List ℕ)
after_end [] = []
after_end (c ∷ cs) = split cs

split-element_end :
    (path : List ℕ)
    → (split path ≡ (element_end path).0 ∷ after_end (element_end path).1)
      × IsEnd (element_end path).1
unfolding split element_end
split-element_end [] = (refl, tt)
split-element_end (c ∷ cs) = elim (Bool-cases (c == slash)) [
  | inl z ↦ rw z (refl, eq_of z)
  | inr z ↦ let (e, end) = split-element_end cs in rw (z, e) (refl, end)
]

without_empty-after_end :
    (rest : List ℕ) → IsEnd rest → without_empty (after_end rest) ≡ without_empty (split rest)
unfolding split without_empty
without_empty-after_end [] end = refl
without_empty-after_end (c ∷ cs) end = rw (slash_test end) refl
  where
    slash_test : c ≡ slash → (c == slash) ≡ true
    slash_test h = ground arith

element_end-first :
    (c : ℕ) (cs : List ℕ) → c ≢ slash → (f : List ℕ) × ((element_end (c ∷ cs)).0 ≡ c ∷ f)
unfolding element_end
element_end-first c cs ne = ((element_end cs).0, rw (no_slash ne) refl)
  where
    no_slash : c ≢ slash → (c == slash) ≡ false
    no_slash h = ground arith

names-element_end :
    (c : ℕ) (cs : List ℕ)
    → c ≢ slash
    → names (c ∷ cs) ≡ take dirsiz (element_end (c ∷ cs)).0 ∷ names (element_end (c ∷ cs)).1
unfolding names without_empty
names-element_end c cs ne =
    let (e, end) = split-element_end (c ∷ cs) in
    let (f, first) = element_end-first c cs ne in
    ap (λ fs. map (take dirsiz) (without_empty fs)) e
    ∙ rw first
        (ap (λ fs. take dirsiz (c ∷ f) ∷ map (take dirsiz) fs) (without_empty-after_end _ end))

-- The rest of a path is shorter.
length-skip_slashes : (path : List ℕ) → length (skip_slashes path) ≤ length path
unfolding skip_slashes
length-skip_slashes [] = omega arith
length-skip_slashes (c ∷ cs) = elim (Bool-cases (c == slash)) [
  | inl z ↦ rw z (omega (arith, length-skip_slashes cs))
  | inr z ↦ rw z (omega arith)
]

length-element_end :
    (path : List ℕ) → length (element_end path).0 + length (element_end path).1 ≡ length path
unfolding element_end
length-element_end [] = omega arith
length-element_end (c ∷ cs) = elim (Bool-cases (c == slash)) [
  | inl z ↦ rw z (omega arith)
  | inr z ↦ rw z (omega (arith, length-element_end cs))
]

names-empty : names [] ≡ []
unfolding names split without_empty
names-empty = refl

-- What `skipelem` comes back with.
pub data Cut (path : List ℕ) : Option (List ℕ × List ℕ) → Type 0 where
  no_element : names path ≡ [] → Cut path none
  element :
      (name rest : List ℕ)
      → names path ≡ name ∷ names rest
      → IsClean rest
      → length rest < length path
      → Cut path (some (name, rest))

-- `skipelem` gives the first name on the path, cut to DIRSIZ characters, and a rest with the other
-- names that is shorter and starts with no slash; or nothing exactly for a path with no name on it.
pub skipelem_lem : (path : List ℕ) → Cut path (skipelem path)
unfolding skipelem
skipelem_lem path =
    by_start (skip_slashes path) (skip_slashes-IsClean path) (names-skip_slashes path)
      (length-skip_slashes path)
  where
    by_start :
        (s : List ℕ)
        → IsClean s
        → names s ≡ names path
        → length s ≤ length path
        → Cut path (cut_element s)
    by_start [] clean e le = no_element (sym e ∙ names-empty)
    by_start (c ∷ cs) clean e le =
        let (f, first) = element_end-first c cs clean in
        let len = length-element_end (c ∷ cs) in
        let some_passed : 0 < length (element_end (c ∷ cs)).0 = rw first (omega arith) in
        element (take dirsiz (element_end (c ∷ cs)).0) (skip_slashes (element_end (c ∷ cs)).1)
          (sym e
            ∙ names-element_end c cs clean
            ∙ ap (λ fs. take dirsiz (element_end (c ∷ cs)).0 ∷ fs)
                (sym (names-skip_slashes (element_end (c ∷ cs)).1)))
          (skip_slashes-IsClean (element_end (c ∷ cs)).1)
          (omega (arith, le, some_passed, len, length-skip_slashes (element_end (c ∷ cs)).1))
