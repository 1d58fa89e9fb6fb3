-- ===== src/Prelude/Distinct.antt =====
-- Lists of distinct elements, and one element taken out or moved.
use mathlib.Core.Path.{◌≡◌, sym, ap}
use mathlib.Core.Logic.{if_pos, if_neg}
use mathlib.Core.Logic.Or
use mathlib.Core.List.{
  List, [], ◌∷◌, ◌++◌, append_assoc, Mem, Mem-prop, not-mem-nil, mem-cons, Perm, perm_middle, Nodup,
  Nodup-cons, erase, cons-perm_iff_perm-erase,
}
use mathlib.Core.List.Perm

module _ {ℓ} {A : Type ℓ} where
  pub perm_front :
      (a : A) (xs ys zs : List A) → Perm (xs ++ (ys ++ (a ∷ zs))) (a ∷ (xs ++ (ys ++ zs)))
  perm_front a xs ys zs =
      rw (← append_assoc xs ys (a ∷ zs), ← append_assoc xs ys zs) (perm_middle (xs ++ ys) zs)

  pub Nodup-take_out :
      (a : A) (xs ys zs : List A) → Nodup (xs ++ (ys ++ (a ∷ zs))) → Nodup (xs ++ (ys ++ zs))
  Nodup-take_out a xs ys zs d = (Nodup-cons.0 (Perm.nodup (perm_front a xs ys zs) d)).1

  -- `a` moved behind `zs`.
  pub Nodup-move :
      (a : A) (xs ys zs ws : List A)
      → Nodup (xs ++ ((ys ++ (a ∷ zs)) ++ ws))
      → Nodup (xs ++ ((ys ++ zs) ++ (a ∷ ws)))
  Nodup-move a xs ys zs ws = Perm.nodup (
      Perm.append_left xs (
        rw (append_assoc ys (a ∷ zs) ws, append_assoc ys zs (a ∷ ws))
          (Perm.append_left ys (Perm.symm (perm_middle zs ws)))))

module _ {ℓ} {A : Type ℓ} (dec : Discrete A) where
  pub erase-append_mem :
      (a : A) (xs ys : List A) → Mem a xs → erase dec (xs ++ ys) a ≡ erase dec xs a ++ ys
  erase-append_mem a [] ys m = absurd (not-mem-nil m)
  erase-append_mem a (x ∷ xs) ys m = elim (dec x a) [
    | yes same ↦ rw (if_pos _ same, if_pos _ same)
    | no other ↦
        rw (if_neg _ other, if_neg _ other)
          (ap (◌∷◌ x) (
            erase-append_mem a xs ys
              (Or.elim Mem-prop (mem-cons.0 m) (λ e. absurd (other (sym e))) (λ r. r))))
  ]

  pub erase-perm :
      (a : A) (xs ys zs : List A) → Perm xs (ys ++ (a ∷ zs)) → Perm (erase dec xs a) (ys ++ zs)
  erase-perm a xs ys zs p =
      Perm.symm ((cons-perm_iff_perm-erase dec).0 (Perm.symm (Perm.trans p (perm_middle ys zs)))).1
