-- ===== src/Store/Occurs.antt =====
-- Where an element of a list of a store stands.
use mathlib.Core.List.{Perm, Mem, Memᴰ, mem-cons_of_mem}
use mathlib.Core.List.Perm
use mathlib.Core.Logic.{∥∥₁_elim}
use mathlib.Core.HLevel.{⊥_prop}
use mathlib.Core.Path.{subst}
use super_victor.Prelude.{refl, sym, ap, List, [], ◌∷◌, ◌++◌, map, All}
use super_victor.Store.Contract.{Occurs, here, there}

module _ {A : Type 0} (P : A → Type 0) where
  pub All-Occurs : (xs : List A) → All P xs → (x : A) → Occurs x xs → P x
  All-Occurs [] h x p = elim p [ ]
  All-Occurs (y ∷ xs) (h, hs) x (here _ _ e) = subst P (sym e) h
  All-Occurs (y ∷ xs) (h, hs) x (there _ _ p) = All-Occurs xs hs x p

  pub Occurs-All : (xs : List A) → ((x : A) → Occurs x xs → P x) → All P xs
  Occurs-All [] h = tt
  Occurs-All (x ∷ xs) h = (h x (here x xs refl), Occurs-All xs (λ y p. h y (there x xs p)))

pub Occurs-map :
    {A B : Type 0} (f : A → B) (x : A) (xs : List A) → Occurs x xs → Occurs (f x) (map f xs)
Occurs-map f x [] p = elim p [ ]
Occurs-map f x (y ∷ xs) (here _ _ e) = here (f y) (map f xs) (ap f e)
Occurs-map f x (y ∷ xs) (there _ _ p) = there (f y) (map f xs) (Occurs-map f x xs p)

pub Occurs-append : {A : Type 0} (x : A) (xs ys : List A) → Occurs x xs → Occurs x (xs ++ ys)
Occurs-append x [] ys p = elim p [ ]
Occurs-append x (y ∷ xs) ys (here _ _ e) = here y (xs ++ ys) e
Occurs-append x (y ∷ xs) ys (there _ _ p) = there y (xs ++ ys) (Occurs-append x xs ys p)

module _ {A : Type 0} where
  Mem-Occurs : {x : A} {xs : List A} → Occurs x xs → Mem x xs
  Mem-Occurs {xs = []} p = elim p [ ]
  Mem-Occurs {xs = y ∷ xs} (here _ _ e) = ∣ Memᴰ.head e ∣₁
  Mem-Occurs {xs = y ∷ xs} (there _ _ p) = mem-cons_of_mem y (Mem-Occurs p)

  Occurs-Memᴰ : {x : A} {xs : List A} → Memᴰ x xs → Occurs x xs
  Occurs-Memᴰ {xs = []} m = elim m [ ]
  Occurs-Memᴰ {xs = y ∷ xs} (Memᴰ.head e) = here y xs e
  Occurs-Memᴰ {xs = y ∷ xs} (Memᴰ.tail m) = there y xs (Occurs-Memᴰ m)

  -- What occurs in a list occurs in its permutations, if only a contradiction is asked for.
  pub Occurs-Perm : {x : A} {xs ys : List A} → Perm xs ys → Occurs x xs → ¬ (¬ (Occurs x ys))
  Occurs-Perm p q none_ =
      ∥∥₁_elim ((Perm.mem_iff p).0 (Mem-Occurs q)) ⊥_prop (λ m. none_ (Occurs-Memᴰ m))
