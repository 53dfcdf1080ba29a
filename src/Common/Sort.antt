-- ===== src/Common/Sort.antt =====
-- Sorting by a Boolean "comes before": what it means to be sorted, and the stable insertion sort
-- whose result `sort.SliceStable` documents.
use mathlib.Core.Path.{◌≡◌, refl}
use mathlib.Core.Bool.{Bool, true, false}
use mathlib.Core.List.{List, [], ◌∷◌, Permᴰ}
use mathlib.Core.List.Permᴰ
use mathlib.Core.Logic.{inl, inr}
use llm_agent_memory.Common.Tests.{if◌then◌else◌, Bool-cases}
use llm_agent_memory.Common.Lists.{All, All-perm}

module _ {ℓ} {A : Type ℓ} where
  -- No later element comes before an earlier one.
  abbrev pub IsSorted : (A → A → Bool) → List A → Type ℓ
  IsSorted less [] = Unit
  IsSorted less (x ∷ xs) = All (λ y. less y x ≡ false) xs × IsSorted less xs

  -- A strict weak order on the elements that satisfy `P`.
  pub record IsStrictWeak (P : A → Type ℓ) (less : A → A → Bool) : Type ℓ where
    pub asym : (x y : A) → P x → P y → less x y ≡ true → less y x ≡ false
    pub incomp_trans :
        (x y z : A) → P x → P y → P z → less y x ≡ false → less z y ≡ false → less z x ≡ false

  unfoldable pub insert_by : (A → A → Bool) → A → List A → List A
  insert_by less x [] = x ∷ []
  insert_by less x (y ∷ ys) = if less y x then y ∷ insert_by less x ys else x ∷ y ∷ ys

  unfoldable pub insertion_sort : (A → A → Bool) → List A → List A
  unfolding insert_by
  insertion_sort less [] = []
  insertion_sort less (x ∷ xs) = insert_by less x (insertion_sort less xs)

module _ {ℓ} {A : Type ℓ} (less : A → A → Bool) where
  pub insert_by-perm : (x : A) (ys : List A) → Permᴰ (insert_by less x ys) (x ∷ ys)
  unfolding insert_by
  insert_by-perm x [] = Permᴰ.refl (x ∷ [])
  insert_by-perm x (y ∷ ys) = elim (Bool-cases (less y x)) [
    | inl h ↦ rw h (Permᴰ.trans (Permᴰ.cons refl (insert_by-perm x ys)) (Permᴰ.swap refl refl))
    | inr h ↦ rw h (Permᴰ.refl (x ∷ y ∷ ys))
  ]

  pub insertion_sort-perm : (xs : List A) → Permᴰ (insertion_sort less xs) xs
  unfolding insertion_sort
  insertion_sort-perm [] = Permᴰ.nil
  insertion_sort-perm (x ∷ xs) =
      Permᴰ.trans (insert_by-perm x (insertion_sort less xs))
        (Permᴰ.cons refl (insertion_sort-perm xs))

module _ {ℓ} {A : Type ℓ} {P : A → Type ℓ} {less : A → A → Bool} (w : IsStrictWeak P less) where
  below_trans :
      (x y : A) (zs : List A)
      → P x
      → P y
      → All P zs
      → less y x ≡ false
      → All (λ z. less z y ≡ false) zs
      → All (λ z. less z x ≡ false) zs
  below_trans x y [] px py pz h k = tt
  below_trans x y (z ∷ zs) px py pz h k =
      (w.incomp_trans x y z px py pz.0 h k.0, below_trans x y zs px py pz.1 h k.1)

  pub insert_by-IsSorted :
      (x : A) (ys : List A)
      → P x
      → All P ys
      → IsSorted less ys
      → IsSorted less (insert_by less x ys)
  unfolding insert_by
  insert_by-IsSorted x [] px py s = (tt, tt)
  insert_by-IsSorted x (y ∷ ys) px py s = elim (Bool-cases (less y x)) [
    | inl h ↦ rw h (
      All-perm _ (Permᴰ.symm (insert_by-perm less x ys)) (w.asym y x py.0 px h, s.0),
      insert_by-IsSorted x ys px py.1 s.1,
    )
    | inr h ↦ rw h ((h, below_trans x y ys px py.0 py.1 h s.0), s)
  ]

  pub insertion_sort-IsSorted : (xs : List A) → All P xs → IsSorted less (insertion_sort less xs)
  unfolding insertion_sort
  insertion_sort-IsSorted [] p = tt
  insertion_sort-IsSorted (x ∷ xs) p =
      insert_by-IsSorted x (insertion_sort less xs) p.0
        (All-perm P (Permᴰ.symm (insertion_sort-perm less xs)) p.1) (insertion_sort-IsSorted xs p.1)
