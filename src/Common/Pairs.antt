-- ===== src/Common/Pairs.antt =====
-- Lists any two of whose elements are related, and tests of whether some element passes.
use mathlib.Core.Path.{◌≡◌, refl, ap, ◌∙◌, subst}
use mathlib.Core.Bool.{Bool, ◌||◌}
use mathlib.Core.List.{List, [], ◌∷◌, ◌++◌, Permᴰ}
use Prim.Native.Nat.{ℕ, zero, suc}
use native.Mathlib.Omega.{arith}
use llm_agent_memory.Common.Lists.{All, All-perm, All-take, take, any_by}

module _ {ℓ} {A : Type ℓ} where
  -- Each element is related to all later ones.
  abbrev pub Pairwise {κ} : (A → A → Type κ) → List A → Type κ
  Pairwise R [] = Unit
  Pairwise R (x ∷ xs) = All (R x) xs × Pairwise R xs

  pub any_by-perm : (p : A → Bool) {xs ys : List A} → Permᴰ xs ys → any_by p xs ≡ any_by p ys
  any_by-perm p Permᴰ.nil = refl
  any_by-perm p (Permᴰ.cons e q) = ground (arith, any_by-perm p q, ap p e)
  any_by-perm p (Permᴰ.swap e f) = ground (arith, ap p e, ap p f)
  any_by-perm p (Permᴰ.trans q r) = any_by-perm p q ∙ any_by-perm p r

  pub any_by-append :
      (p : A → Bool) (xs ys : List A) → any_by p (xs ++ ys) ≡ (any_by p xs || any_by p ys)
  any_by-append p [] ys = refl
  any_by-append p (x ∷ xs) ys = ground (arith, any_by-append p xs ys)

module _ {ℓ κ} {A : Type ℓ} (R : A → A → Type κ) where
  pub Pairwise-take : (n : ℕ) (xs : List A) → Pairwise R xs → Pairwise R (take n xs)
  Pairwise-take zero xs h = tt
  Pairwise-take (suc n) [] h = tt
  Pairwise-take (suc n) (x ∷ xs) h = (All-take (R x) n xs h.0, Pairwise-take n xs h.1)

  pub Pairwise-perm :
      ((x y : A) → R x y → R y x) → {xs ys : List A} → Permᴰ xs ys → Pairwise R xs → Pairwise R ys
  Pairwise-perm comm Permᴰ.nil h = tt
  Pairwise-perm comm (Permᴰ.cons {l₂ = l} e p) h =
      (subst (λ z. All (R z) l) e (All-perm _ p h.0), Pairwise-perm comm p h.1)
  Pairwise-perm comm (Permᴰ.swap {a = a} {b = b} {b' = b'} {l = l} e f) h =
      subst (λ z. Pairwise R (z ∷ b' ∷ l)) f
        (subst (λ z. Pairwise R (b ∷ z ∷ l)) e ((comm a b h.0.0, h.1.0), (h.0.1, h.1.1)))
  Pairwise-perm comm (Permᴰ.trans p q) h = Pairwise-perm comm q (Pairwise-perm comm p h)
