-- ===== src/Base/Permutations.antt =====
-- Lists up to order: what a Boolean test splits, and what moves from one list behind another.
use mathlib.Core.List.{append_assoc, perm_middle}
use mathlib.Core.List.Perm
use mathlib.Core.List.{Permᴰ}
use mathlib.Core.Logic.{∥∥₁_elim}
use mathlib.Core.Path.{◌≡◌, refl, ap, ◌∙◌}
use native.Mathlib.Nat.{ℕ_set}
use native.Mathlib.Omega.{arith}
use mathlib.Core.Path.{sym, subst}
use mathlib.Core.Logic.{inl, inr}
use mathlib.Core.Bool.{Bool, not}
use mathlib.Core.List.{List, [], ◌∷◌, ◌++◌}
use network_observability_cl.Base.Tests.{Bool-cases}
use network_observability_cl.Base.Lists.{keep, length, count}
pub use mathlib.Core.List.{Perm}

module _ {ℓ} {A : Type ℓ} where
  -- What passes a test and what fails it are together the list.
  pub keep-perm : (p : A → Bool) (xs : List A) → Perm (keep p xs ++ keep (λ x. not (p x)) xs) xs
  keep-perm p [] = Perm.nil
  keep-perm p (x ∷ xs) = elim (Bool-cases (p x)) [
    | inl hit ↦ rw (hit, keep) (Perm.cons x (keep-perm p xs))
    | inr miss ↦
        rw (miss, keep)
          (Perm.trans (perm_middle (keep p xs) (keep (λ y. not (p y)) xs))
            (Perm.cons x (keep-perm p xs)))
  ]

  -- Behind the same front.
  pub behind :
      (front xs ys zs : List A) → Perm (xs ++ ys) zs → Perm ((front ++ xs) ++ ys) (front ++ zs)
  behind front xs ys zs p =
      subst (λ l. Perm l (front ++ zs)) (sym (append_assoc front xs ys)) (Perm.append_left front p)

  -- An item that joins the front instead of the back.
  pub join_front :
      (front back : List A) (x : A) → Perm ((front ++ x ∷ []) ++ back) ((front ++ back) ++ x ∷ [])
  join_front front back x =
      subst (Perm ((front ++ x ∷ []) ++ back)) (sym (append_assoc front back (x ∷ [])))
        (behind front (x ∷ []) back (back ++ x ∷ []) (Perm.symm (perm_middle_end back)))
    where
      perm_middle_end : (l : List A) → Perm (l ++ x ∷ []) (x ∷ l)
      perm_middle_end [] = Perm.refl (x ∷ [])
      perm_middle_end (y ∷ l) = Perm.trans (Perm.cons y (perm_middle_end l)) (Perm.swap x y l)

  length_alike : {xs ys : List A} → Permᴰ xs ys → length xs ≡ length ys
  length_alike Permᴰ.nil = refl
  length_alike (Permᴰ.cons x p) = omega (arith, length_alike p)
  length_alike (Permᴰ.swap x y) = refl
  length_alike (Permᴰ.trans p q) = length_alike p ∙ length_alike q

  pub length-perm : {xs ys : List A} → Perm xs ys → length xs ≡ length ys
  length-perm p = ∥∥₁_elim p (ℕ_set _ _) length_alike

  count_alike : (test : A → Bool) {xs ys : List A} → Permᴰ xs ys → count test xs ≡ count test ys
  count_alike test Permᴰ.nil = refl
  count_alike test (Permᴰ.cons e p) = rw (ap test e) (omega (arith, count_alike test p))
  count_alike test (Permᴰ.swap d e) = rw (ap test d, ap test e) (omega arith)
  count_alike test (Permᴰ.trans p q) = count_alike test p ∙ count_alike test q

  pub count-perm : (test : A → Bool) {xs ys : List A} → Perm xs ys → count test xs ≡ count test ys
  count-perm test p = ∥∥₁_elim p (ℕ_set _ _) (count_alike test)

  pub perm_last : (xs : List A) (x : A) → Perm (xs ++ x ∷ []) (x ∷ xs)
  perm_last [] x = Perm.refl (x ∷ [])
  perm_last (y ∷ xs) x = Perm.trans (Perm.cons y (perm_last xs x)) (Perm.swap x y xs)
