-- ===== src/Prelude/Sorting.antt =====
-- `sorted(xs, key=…)` for a natural key. The sort is stable, as Python's is: an element goes in
-- front of the first that is not smaller, and the list is taken from its end.
use Prim.Native.Nat.{ℕ, suc, ◌≤◌}
use mathlib.Core.Path.{◌≡◌, refl, sym, ap, ap₂, subst, subst₂, ◌∙◌}
use mathlib.Core.Logic.{◌≢◌, inl, inr}
use mathlib.Core.Bool.{Bool, ◌||◌}
use mathlib.Core.List.{List, [], ◌∷◌, Permᴰ}
use native.Mathlib.Omega.{arith}
use hedp.Prelude.Tests.{Bool-cases, leb, if◌then◌else◌}
use hedp.Prelude.Lists.{All, All-imp, any, length}

module _ {ℓ} {A : Type ℓ} where
  pub All-perm {κ} : (P : A → Type κ) {xs ys : List A} → Permᴰ xs ys → All P xs → All P ys
  All-perm P Permᴰ.nil h = tt
  All-perm P (Permᴰ.cons e p) h = (subst P e h.0, All-perm P p h.1)
  All-perm P (Permᴰ.swap e d) h = (subst P d h.1.0, (subst P e h.0, h.1.1))
  All-perm P (Permᴰ.trans p q) h = All-perm P q (All-perm P p h)

  pub length-perm : {xs ys : List A} → Permᴰ xs ys → length xs ≡ length ys
  length-perm Permᴰ.nil = refl
  length-perm (Permᴰ.cons e p) = ap suc (length-perm p)
  length-perm (Permᴰ.swap e d) = refl
  length-perm (Permᴰ.trans p q) = length-perm p ∙ length-perm q

module _ {ℓ} {A : Type ℓ} (key : A → ℕ) where
  unfoldable pub insert : A → List A → List A
  insert x [] = x ∷ []
  insert x (y ∷ ys) = if leb (key x) (key y) then x ∷ y ∷ ys else y ∷ insert x ys

  unfoldable pub sorted : List A → List A
  unfolding insert
  sorted [] = []
  sorted (x ∷ xs) = insert x (sorted xs)

  -- No two elements have the same key.
  abbrev pub KeysDiffer : List A → Type 0
  KeysDiffer [] = Unit
  KeysDiffer (x ∷ xs) = All (λ y. key x ≢ key y) xs × KeysDiffer xs

  abbrev pub Ascending : List A → Type 0
  Ascending [] = Unit
  Ascending (x ∷ xs) = All (λ y. key x ≤ key y) xs × Ascending xs

  insert_least : (x : A) (xs : List A) → All (λ y. key x ≤ key y) xs → insert x xs ≡ x ∷ xs
  unfolding insert
  insert_least x [] h = refl
  insert_least x (y ∷ ys) h = ground arith

  pub sorted_of_Ascending : (xs : List A) → Ascending xs → sorted xs ≡ xs
  unfolding sorted
  sorted_of_Ascending [] h = refl
  sorted_of_Ascending (x ∷ xs) h =
      ap (insert x) (sorted_of_Ascending xs h.1) ∙ insert_least x xs h.0

  insert_comm :
      (x y : A) (xs : List A) → key x ≢ key y → insert x (insert y xs) ≡ insert y (insert x xs)
  unfolding insert
  insert_comm x y [] h = ground arith
  insert_comm x y (z ∷ zs) h = ground (arith, insert_comm x y zs h)

  KeysDiffer-perm : {xs ys : List A} → Permᴰ xs ys → KeysDiffer xs → KeysDiffer ys
  KeysDiffer-perm Permᴰ.nil h = tt
  KeysDiffer-perm (Permᴰ.cons {l₂ = l₂} e p) h = (
    subst (λ c. All (λ y. key c ≢ key y) l₂) e (All-perm (λ y. key _ ≢ key y) p h.0),
    KeysDiffer-perm p h.1,
  )
  KeysDiffer-perm (Permᴰ.swap {l = l} e d) h = (
    (
      subst₂ (λ u v. key u ≢ key v) d e (λ q. h.0.0 (sym q)),
      subst (λ c. All (λ y. key c ≢ key y) l) d h.1.0,
    ),
    (subst (λ c. All (λ y. key c ≢ key y) l) e h.0.1, h.1.1),
  )
  KeysDiffer-perm (Permᴰ.trans p q) h = KeysDiffer-perm q (KeysDiffer-perm p h)

  -- Elements with different keys come out in the same order, however they went in.
  pub sorted_perm : {xs ys : List A} → Permᴰ xs ys → KeysDiffer xs → sorted xs ≡ sorted ys
  unfolding sorted
  sorted_perm Permᴰ.nil h = refl
  sorted_perm (Permᴰ.cons e p) h = ap₂ insert e (sorted_perm p h.1)
  sorted_perm (Permᴰ.swap {a = a} {b = b} {l = l} e d) h =
      insert_comm a b (sorted l) h.0.0 ∙ ap₂ (λ u v. insert u (insert v (sorted l))) d e
  sorted_perm (Permᴰ.trans p q) h = sorted_perm p h ∙ sorted_perm q (KeysDiffer-perm p h)

  insert-below :
      (least x : A) (xs : List A)
      → key least ≤ key x
      → All (λ y. key least ≤ key y) xs
      → All (λ y. key least ≤ key y) (insert x xs)
  unfolding insert
  insert-below least x [] h hs = (h, tt)
  insert-below least x (y ∷ ys) h hs = ground (arith, insert-below least x ys h)

  insert-Ascending : (x : A) (xs : List A) → Ascending xs → Ascending (insert x xs)
  unfolding insert
  insert-Ascending x [] h = (tt, tt)
  insert-Ascending x (y ∷ ys) h = elim (Bool-cases (leb (key x) (key y))) [
    | inl before ↦ rw before (
      (
        (ground arith),
        All-imp (λ z. key y ≤ key z) (λ z. key x ≤ key z) ys (λ z le. ground arith) h.0,
      ),
      h,
    )
    | inr after ↦ rw after (insert-below y x ys (ground arith) h.0, insert-Ascending x ys h.1)
  ]

  pub sorted-Ascending : (xs : List A) → Ascending (sorted xs)
  unfolding sorted
  sorted-Ascending [] = tt
  sorted-Ascending (x ∷ xs) = insert-Ascending x (sorted xs) (sorted-Ascending xs)

  any-insert : (p : A → Bool) (x : A) (xs : List A) → any p (insert x xs) ≡ (p x || any p xs)
  unfolding insert
  any-insert p x [] = refl
  any-insert p x (y ∷ ys) = ground (arith, any-insert p x ys)

  pub any-sorted : (p : A → Bool) (xs : List A) → any p (sorted xs) ≡ any p xs
  unfolding sorted
  any-sorted p [] = refl
  any-sorted p (x ∷ xs) = ground (arith, any-insert p x (sorted xs), any-sorted p xs)
