-- ===== src/Bcache/Rings.antt =====
-- The doubly linked list of kernel/bio.c, as the list of its buffers.
use so_final_proyect.Prelude.{
  ℕ, ◌≡◌, ◌≢◌, sym, ◌∙◌, List, [], ◌∷◌, ◌++◌, All, All-imp, Distinct, update, update_self,
  update_ne,
}

abbrev pub Links : Type 0
Links = ℕ → ℕ

-- From `a` the links lead through the list to `c`, and back.
abbrev pub Seg : Links → Links → ℕ → List ℕ → ℕ → Type 0
Seg n p a [] c = (n a ≡ c) × (p c ≡ a)
Seg n p a (x ∷ xs) c = (n a ≡ x) × (p x ≡ a) × Seg n p x xs c

pub Seg-split :
    (n p : Links) (a : ℕ) (xs : List ℕ) (b : ℕ) (ys : List ℕ) (c : ℕ)
    → Seg n p a (xs ++ (b ∷ ys)) c
    → Seg n p a xs b × Seg n p b ys c
Seg-split n p a [] b ys c s = ((s.0, s.1), s.2)
Seg-split n p a (x ∷ xs) b ys c s = let (l, r) = Seg-split n p x xs b ys c s.2 in ((s.0, s.1, l), r)

pub Seg-join :
    (n p : Links) (a : ℕ) (xs : List ℕ) (b : ℕ) (ys : List ℕ) (c : ℕ)
    → Seg n p a xs b
    → Seg n p b ys c
    → Seg n p a (xs ++ (b ∷ ys)) c
Seg-join n p a [] b ys c l r = (l.0, l.1, r)
Seg-join n p a (x ∷ xs) b ys c l r = (l.0, l.1, Seg-join n p x xs b ys c l.2 r)

-- A write of `next` at a node that the list does not leave, or of `prev` at one that it does not enter.
pub Seg-next :
    (n p : Links) (a : ℕ) (xs : List ℕ) (c k v : ℕ)
    → k ≢ a
    → All (λ x. k ≢ x) xs
    → Seg n p a xs c
    → Seg (update n k v) p a xs c
Seg-next n p a [] c k v ne out s = (update_ne n v ne ∙ s.0, s.1)
Seg-next n p a (x ∷ xs) c k v ne out s =
    (update_ne n v ne ∙ s.0, s.1, Seg-next n p x xs c k v out.0 out.1 s.2)

pub Seg-prev :
    (n p : Links) (a : ℕ) (xs : List ℕ) (c k v : ℕ)
    → k ≢ c
    → All (λ x. k ≢ x) xs
    → Seg n p a xs c
    → Seg n (update p k v) a xs c
Seg-prev n p a [] c k v ne out s = (s.0, update_ne p v ne ∙ s.1)
Seg-prev n p a (x ∷ xs) c k v ne out s =
    (s.0, update_ne p v out.0 ∙ s.1, Seg-prev n p x xs c k v ne out.1 s.2)

-- The node before the end, and the one after the start.
abbrev pub last_of : ℕ → List ℕ → ℕ
last_of a [] = a
last_of a (x ∷ xs) = last_of x xs

abbrev pub first_of : List ℕ → ℕ → ℕ
first_of [] c = c
first_of (x ∷ xs) c = x

pub Seg-first : (n p : Links) (a : ℕ) (xs : List ℕ) (c : ℕ) → Seg n p a xs c → n a ≡ first_of xs c
Seg-first n p a [] c s = s.0
Seg-first n p a (x ∷ xs) c s = s.0

pub Seg-last : (n p : Links) (a : ℕ) (xs : List ℕ) (c : ℕ) → Seg n p a xs c → p c ≡ last_of a xs
Seg-last n p a [] c s = s.1
Seg-last n p a (x ∷ xs) c s = Seg-last n p x xs c s.2

-- The last link of a list, led elsewhere.
pub Seg-relast :
    (n p : Links) (a : ℕ) (xs : List ℕ) (b c : ℕ)
    → Distinct (a ∷ xs)
    → All (λ x. c ≢ x) xs
    → Seg n p a xs b
    → Seg (update n (last_of a xs) c) (update p c (last_of a xs)) a xs c
Seg-relast n p a [] b c d out s = (update_self n a c, update_self p c a)
Seg-relast n p a (x ∷ xs) b c d out s = (
  update_ne n c (last-ne x xs d.0) ∙ s.0,
  update_ne p (last_of x xs) out.0 ∙ s.1,
  Seg-relast n p x xs b c d.1 out.1 s.2,
)
  where
    last-ne : (y : ℕ) (ys : List ℕ) → All (λ z. z ≢ a) (y ∷ ys) → last_of y ys ≢ a
    last-ne y [] h = h.0
    last-ne y (z ∷ ys) h = last-ne z ys h.1

-- The first link of a list, led from elsewhere.
pub Seg-refirst :
    (n p : Links) (a b : ℕ) (ys : List ℕ) (c : ℕ)
    → Distinct ys
    → All (λ y. a ≢ y) ys
    → All (λ y. y ≢ c) ys
    → Seg n p b ys c
    → Seg (update n a (first_of ys c)) (update p (first_of ys c) a) a ys c
Seg-refirst n p a b [] c d out off s = (update_self n a c, update_self p c a)
Seg-refirst n p a b (y ∷ ys) c d out off s = (
  update_self n a y,
  update_self p y a,
  Seg-next n (update p y a) y ys c a y out.0 out.1
      (Seg-prev n p y ys c y a off.0 (All-imp _ _ (λ z h e. h (sym e)) ys d.0) s.2),
)
