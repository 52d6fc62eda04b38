-- ===== src/Prelude/Lists.antt =====
-- Lists measured, sliced and searched by native numbers, under the library's names.
use Prim.Native.Nat.{ℕ, zero, suc, ◌+◌, ◌-◌, ◌≤◌, ◌<◌, min}
use mathlib.Core.Path.{◌≡◌, refl, sym, ap, ◌∙◌}
use mathlib.Core.Bool.{Bool, true, false, ◌&&◌, ◌||◌, false≢true}
use mathlib.Core.List.{List, [], ◌∷◌, ◌++◌, map}
use mathlib.Core.Option.{Option, none, some}
use mathlib.Core.Logic.{inl, inr}
use native.Mathlib.Omega.{arith}
use hedp.Prelude.Tests.{Bool-cases}

module _ {ℓ} {A : Type ℓ} where
  abbrev pub length : List A → ℕ
  length [] = 0
  length (x ∷ xs) = suc (length xs)

  abbrev pub get_elem? : List A → ℕ → Option A
  get_elem? [] i = none
  get_elem? (x ∷ xs) zero = some x
  get_elem? (x ∷ xs) (suc i) = get_elem? xs i

  -- `xs[i]` at an index that the caller has checked.
  abbrev pub get_or : List A → ℕ → A → A
  get_or [] i d = d
  get_or (x ∷ xs) zero d = x
  get_or (x ∷ xs) (suc i) d = get_or xs i d

  -- `xs[:n]`
  abbrev pub take : ℕ → List A → List A
  take zero xs = []
  take (suc n) [] = []
  take (suc n) (x ∷ xs) = x ∷ take n xs

  -- `xs[n:]`
  abbrev pub drop : ℕ → List A → List A
  drop zero xs = xs
  drop (suc n) [] = []
  drop (suc n) (x ∷ xs) = drop n xs

  -- `xs[i:j]`
  abbrev pub slice : List A → ℕ → ℕ → List A
  slice xs i j = take (j - i) (drop i xs)

  -- `any` and `all` over a generator stop early; on pure tests that cannot be seen.
  abbrev pub any : (A → Bool) → List A → Bool
  any p [] = false
  any p (x ∷ xs) = p x || any p xs

  abbrev pub all : (A → Bool) → List A → Bool
  all p [] = true
  all p (x ∷ xs) = p x && all p xs

  abbrev pub All {κ} : (A → Type κ) → List A → Type κ
  All P [] = Unit {κ}
  All P (x ∷ xs) = P x × All P xs

module _ {ℓ} {A : Type ℓ} where
  pub length-append : (xs ys : List A) → length (xs ++ ys) ≡ length xs + length ys
  length-append [] ys = omega arith
  length-append (x ∷ xs) ys = omega (arith, length-append xs ys)

  pub take-append-drop : (n : ℕ) (xs : List A) → take n xs ++ drop n xs ≡ xs
  take-append-drop zero xs = refl
  take-append-drop (suc n) [] = refl
  take-append-drop (suc n) (x ∷ xs) = ap (◌∷◌ x) (take-append-drop n xs)

  pub length-take : (n : ℕ) (xs : List A) → length (take n xs) ≡ min n (length xs)
  length-take zero xs = omega arith
  length-take (suc n) [] = omega arith
  length-take (suc n) (x ∷ xs) = omega (arith, length-take n xs)

  pub length-drop : (n : ℕ) (xs : List A) → length (drop n xs) ≡ length xs - n
  length-drop zero xs = omega arith
  length-drop (suc n) [] = omega arith
  length-drop (suc n) (x ∷ xs) = omega (arith, length-drop n xs)

  -- What is left of a list whose length is known, and of what was put in front of it.
  pub take-append_self : (xs ys : List A) (n : ℕ) → n ≡ length xs → take n (xs ++ ys) ≡ xs
  take-append_self [] ys zero h = refl
  take-append_self [] ys (suc n) h = absurd (omega arith)
  take-append_self (x ∷ xs) ys zero h = absurd (omega arith)
  take-append_self (x ∷ xs) ys (suc n) h = ap (◌∷◌ x) (take-append_self xs ys n (omega arith))

  pub drop-append_self : (xs ys : List A) (n : ℕ) → n ≡ length xs → drop n (xs ++ ys) ≡ ys
  drop-append_self [] ys zero h = refl
  drop-append_self [] ys (suc n) h = absurd (omega arith)
  drop-append_self (x ∷ xs) ys zero h = absurd (omega arith)
  drop-append_self (x ∷ xs) ys (suc n) h = drop-append_self xs ys n (omega arith)

  pub drop_cong : (n m : ℕ) (xs : List A) → n ≡ m → drop n xs ≡ drop m xs
  drop_cong n m xs h = ap (λ (k : ℕ). drop k xs) h

  drop-nil : (n : ℕ) → drop {A = A} n [] ≡ []
  drop-nil zero = refl
  drop-nil (suc n) = refl

  pub drop-drop : (n m : ℕ) (xs : List A) → drop m (drop n xs) ≡ drop (n + m) xs
  drop-drop zero m xs = drop_cong m (0 + m) xs (omega arith)
  drop-drop (suc n) zero [] = sym (drop-nil (suc n + 0))
  drop-drop (suc n) (suc m) [] = sym (drop-nil (suc n + suc m))
  drop-drop (suc n) m (x ∷ xs) =
      drop-drop n m xs ∙ drop_cong (suc (n + m)) (suc n + m) (x ∷ xs) (omega arith)

  -- A step of the reading position, and a slice of known end.
  pub drop-step :
      (n : ℕ) (d : A) (xs : List A) → n < length xs → drop n xs ≡ get_or xs n d ∷ drop (n + 1) xs
  drop-step n d [] h = absurd (omega arith)
  drop-step zero d (x ∷ xs) h = refl
  drop-step (suc n) d (x ∷ xs) h =
      drop-step n d xs (omega arith)
      ∙ ap (λ (ys : List A). get_or xs n d ∷ ys)
          (drop_cong (suc (n + 1)) (suc n + 1) (x ∷ xs) (omega arith))

  get_or_cong : (n m : ℕ) (d : A) (xs : List A) → n ≡ m → get_or xs n d ≡ get_or xs m d
  get_or_cong n m d xs h = ap (λ (k : ℕ). get_or xs k d) h

  pub get_or-drop : (n k : ℕ) (d : A) (xs : List A) → get_or (drop n xs) k d ≡ get_or xs (n + k) d
  get_or-drop zero k d xs = get_or_cong k (0 + k) d xs (omega arith)
  get_or-drop (suc n) k d [] = refl
  get_or-drop (suc n) k d (x ∷ xs) =
      get_or-drop n k d xs ∙ get_or_cong (suc (n + k)) (suc n + k) d (x ∷ xs) (omega arith)

  pub slice-append-drop :
      (xs : List A) (i size : ℕ) → slice xs i (i + size) ++ drop (i + size) xs ≡ drop i xs
  slice-append-drop xs i size =
      ap (λ (n : ℕ). take n (drop i xs) ++ drop (i + size) xs) (omega arith)
      ∙ ap (λ (ys : List A). take size (drop i xs) ++ ys) (sym (drop-drop i size xs))
      ∙ take-append-drop size (drop i xs)

  pub length-slice :
      (xs : List A) (i size : ℕ) → i + size ≤ length xs → length (slice xs i (i + size)) ≡ size
  length-slice xs i size h = omega (arith, length-take (i + size - i) (drop i xs), length-drop i xs)

  pub drop_all : (n : ℕ) (xs : List A) → length xs ≤ n → drop n xs ≡ []
  drop_all zero [] h = refl
  drop_all zero (x ∷ xs) h = absurd (omega arith)
  drop_all (suc n) [] h = refl
  drop_all (suc n) (x ∷ xs) h = drop_all n xs (omega arith)

  pub take_all : (n : ℕ) (xs : List A) → length xs ≤ n → take n xs ≡ xs
  take_all zero [] h = refl
  take_all zero (x ∷ xs) h = absurd (omega arith)
  take_all (suc n) [] h = refl
  take_all (suc n) (x ∷ xs) h = ap (◌∷◌ x) (take_all n xs (omega arith))

  pub All-append {κ} :
      (P : A → Type κ) (front back : List A) → All P front → All P back → All P (front ++ back)
  All-append P [] back of_front of_back = of_back
  All-append P (x ∷ front) back (of_x, of_front) of_back =
      (of_x, All-append P front back of_front of_back)

  pub length-map {κ} : {B : Type κ} (xs : List A) (f : A → B) → length (map f xs) ≡ length xs
  length-map [] f = refl
  length-map (x ∷ xs) f = ap suc (length-map xs f)

  pub get_or-append_last :
      (xs : List A) (x d : A) (n : ℕ) → n ≡ length xs → get_or (xs ++ x ∷ []) n d ≡ x
  get_or-append_last [] x d zero h = refl
  get_or-append_last [] x d (suc n) h = absurd (omega arith)
  get_or-append_last (y ∷ xs) x d zero h = absurd (omega arith)
  get_or-append_last (y ∷ xs) x d (suc n) h = get_or-append_last xs x d n (omega arith)

  pub All-imp {κ μ} :
      (P : A → Type κ) (Q : A → Type μ) (xs : List A) → ((x : A) → P x → Q x) → All P xs → All Q xs
  All-imp P Q [] f h = tt
  All-imp P Q (x ∷ xs) f h = (f x h.0, All-imp P Q xs f h.1)

  pub any_none : (p : A → Bool) (xs : List A) → All (λ x. p x ≡ false) xs → any p xs ≡ false
  any_none p [] h = refl
  any_none p (x ∷ xs) h = ground (arith, any_none p xs)

  pub All-take {κ} : (P : A → Type κ) (n : ℕ) (xs : List A) → All P xs → All P (take n xs)
  All-take P zero xs h = tt
  All-take P (suc n) [] h = tt
  All-take P (suc n) (x ∷ xs) h = (h.0, All-take P n xs h.1)

  pub All-drop {κ} : (P : A → Type κ) (n : ℕ) (xs : List A) → All P xs → All P (drop n xs)
  All-drop P zero xs h = h
  All-drop P (suc n) [] h = tt
  All-drop P (suc n) (x ∷ xs) h = All-drop P n xs h.1

  -- Some element passes the test.
  abbrev pub Has : (A → Bool) → List A → Type ℓ
  Has p xs = (i : ℕ) × (a : A) × (get_elem? xs i ≡ some a) × (p a ≡ true)

  pub any→Has : (p : A → Bool) (xs : List A) → any p xs ≡ true → Has p xs
  any→Has p [] h = absurd (false≢true h)
  any→Has p (x ∷ xs) h = elim (Bool-cases (p x)) [
    | inl found ↦ (0, x, refl, found)
    | inr other ↦ let (i, a, at, found) = any→Has p xs (ground arith) in (suc i, a, at, found)
  ]

  pub Has→any : (p : A → Bool) (xs : List A) → Has p xs → any p xs ≡ true
  Has→any p [] (i, a, at, found) = cc
  Has→any p (x ∷ xs) (zero, a, at, found) = ground arith
  Has→any p (x ∷ xs) (suc i, a, at, found) = ground (arith, Has→any p xs (i, a, at, found))

  pub any-append : (p : A → Bool) (xs ys : List A) → any p (xs ++ ys) ≡ (any p xs || any p ys)
  any-append p [] ys = refl
  any-append p (x ∷ xs) ys = ground (arith, any-append p xs ys)

  pub any-map {κ} :
      {B : Type κ} (p : B → Bool) (f : A → B) (xs : List A)
      → any p (map f xs) ≡ any (λ x. p (f x)) xs
  any-map p f [] = refl
  any-map p f (x ∷ xs) = ap (◌||◌ (p (f x))) (any-map p f xs)
