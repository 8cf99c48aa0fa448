-- ===== src/Bcache/Moves.antt =====
-- The list of kernel/bio.c when a buffer leaves it and when one joins it at the front.
use so_final_proyect.Prelude.{
  ℕ, ◌≡◌, ◌≢◌, sym, ◌∙◌, subst, List, [], ◌∷◌, ◌++◌, All, All-imp, All-left, All-right, Distinct,
  Distinct-split, update, update_self, update_ne,
}
use mathlib.Core.List.{append-nil}
use so_final_proyect.Bcache.{Bcache, head, push_front, unlink}
use so_final_proyect.Bcache.Rings.{
  Seg-refirst, Links, Seg, Seg-split, Seg-join, Seg-next, Seg-prev, last_of, first_of, Seg-first,
  Seg-last, Seg-relast,
}

-- The list after the head is `l`.
pub record Ring (t : Bcache) (l : List ℕ) : Type 0 where
  pub links : Seg t.next t.prev head l head
  pub distinct : Distinct (head ∷ l)

last_of-All : (P : ℕ → Type 0) (a : ℕ) (xs : List ℕ) → P a → All P xs → P (last_of a xs)
last_of-All P a [] pa h = pa
last_of-All P a (x ∷ xs) pa h = last_of-All P x xs h.0 h.1

flip : (a : ℕ) (xs : List ℕ) → All (λ x. x ≢ a) xs → All (λ x. a ≢ x) xs
flip a xs h = All-imp _ _ (λ x ne e. ne (sym e)) xs h

-- Without the node between two lists.
bypass :
    (n p : Links) (h b : ℕ) (xs ys : List ℕ)
    → Distinct (h ∷ (xs ++ (b ∷ ys)))
    → Seg n p h xs b
    → Seg n p b ys h
    → Seg
        (update n (last_of h xs) (first_of ys h))
        (update p (first_of ys h) (last_of h xs))
        h
        (xs ++ ys)
        h
bypass n p h b xs [] d l r =
    subst (λ zs. Seg (update n (last_of h xs) h) (update p h (last_of h xs)) h zs h)
      (sym (append-nil xs))
      (Seg-relast n p h xs b h (All-left _ xs _ d.0, (Distinct-split xs (b ∷ []) d.1).0)
        (flip h xs (All-left _ xs _ d.0)) l)
bypass n p h b xs (y ∷ ys) d l r =
    Seg-join _ _ h xs y ys h
      (Seg-relast n p h xs b y (All-left _ xs _ d.0, parts.0)
        (All-imp _ _ (λ x h. h.1.0) xs parts.2) l)
      (Seg-next n _ y ys h (last_of h xs) y
        (last_of-All (λ k. k ≢ y) h xs (λ e. off_head.1.0 (sym e))
          (All-imp _ _ (λ x o e. o.1.0 (sym e)) xs parts.2))
        (last_of-All (λ k. All (λ z. k ≢ z) ys) h xs (flip h ys off_head.1.1)
          (All-imp _ _ (λ x o. flip x ys o.1.1) xs parts.2))
        (Seg-prev n p y ys h y (last_of h xs) off_head.1.0 (flip y ys parts.1.1.0) r.2))
  where
    parts : Distinct xs × Distinct (b ∷ y ∷ ys) × All (λ x. All (λ z. z ≢ x) (b ∷ y ∷ ys)) xs
    parts = Distinct-split xs (b ∷ y ∷ ys) d.1

    off_head : All (λ z. z ≢ h) (b ∷ y ∷ ys)
    off_head = All-right _ xs (b ∷ y ∷ ys) d.0

first_of-ne : (ys : List ℕ) (b : ℕ) → head ≢ b → All (λ y. y ≢ b) ys → first_of ys head ≢ b
first_of-ne [] b nh h = nh
first_of-ne (y ∷ ys) b nh h = h.0

-- A node leaves the list.
pub unlink-Seg :
    (t : Bcache) (b : ℕ) (xs ys : List ℕ)
    → Ring t (xs ++ (b ∷ ys))
    → Seg (unlink b t).next (unlink b t).prev head (xs ++ ys) head
unfolding unlink
unlink-Seg t b xs ys r =
    subst (λ k. Seg (update n k (n b)) (update p (n b) (p b)) head (xs ++ ys) head) (sym last)
      (subst (λ j. Seg (update n g (n b)) (update p (n b) j) head (xs ++ ys) head) (sym pb)
        (subst (λ i. Seg (update n g i) (update p i g) head (xs ++ ys) head) (sym nb)
          (bypass n p head b xs ys r.distinct parts.0 parts.1)))
  where
    n : Links
    n = t.next

    p : Links
    p = t.prev

    g : ℕ
    g = last_of head xs

    parts : Seg n p head xs b × Seg n p b ys head
    parts = Seg-split n p head xs b ys head r.links

    nb : n b ≡ first_of ys head
    nb = Seg-first n p b ys head parts.1

    pb : p b ≡ g
    pb = Seg-last n p head xs b parts.0

    apart : All (λ y. y ≢ b) ys
    apart = (Distinct-split xs (b ∷ ys) r.distinct.1).1.0

    not_head : head ≢ b
    not_head e = (All-right _ xs (b ∷ ys) r.distinct.0).0 (sym e)

    last : update p (n b) (p b) b ≡ g
    last = update_ne p (p b) (λ e. first_of-ne ys b not_head apart (sym nb ∙ e)) ∙ pb

-- A node joins it at the front.
pub push_front-Ring :
    (t : Bcache) (b : ℕ) (l : List ℕ)
    → Seg t.next t.prev head l head
    → Distinct (head ∷ b ∷ l)
    → Ring (push_front b t) (b ∷ l)
unfolding push_front
push_front-Ring t b l s d = record {
  links = (
    update_self (update n b (n head)) head b,
    update_ne (update p b head) b (λ e. first_of-ne l b not_head d.1.0 (sym nh1 ∙ e))
        ∙ update_self p b head,
    Seg-next _ _ b l head head b not_head (flip head l d.0.1) (
        subst (λ i. Seg (update n b (n head)) (update (update p b head) i b) b l head) (sym nh1)
          (subst (λ i. Seg (update n b i) (update (update p b head) f b) b l head) (sym nh)
            (Seg-refirst n (update p b head) b head l head d.1.1 (flip b l d.1.0) d.0.1
              (Seg-prev n p head l head b head (λ e. not_head (sym e)) (flip b l d.1.0) s)))),
  );
  distinct = d;
}
  where
    n : Links
    n = t.next

    p : Links
    p = t.prev

    f : ℕ
    f = first_of l head

    not_head : head ≢ b
    not_head e = d.0.0 (sym e)

    nh : n head ≡ f
    nh = Seg-first n p head l head s

    nh1 : update n b (n head) head ≡ f
    nh1 = update_ne n (n head) (λ e. not_head (sym e)) ∙ nh
