-- ===== src/Base/Sets.antt =====
-- Python sets made of lists: `set(xs) == set(ys)` and `len(xs) == len(set(xs))`, and what they say
-- of the lists.
use mathlib.Core.Bool.{Bool-set}
use mathlib.Core.List.{Mem, Nodup, Perm, mem-cons, mem-cons_self, mem-cons_of_mem, Mem-prop}
use mathlib.Core.List.{not-mem-nil, Nodup-nil, Nodup-cons, perm_ext_iff_of_Nodup}
use mathlib.Core.List.Perm
use mathlib.Core.Logic.Or
use inventory_cloud_service.Base.Tests.{Eq, ◌==◌, beq_refl, Bool-cases}
use inventory_cloud_service.Base.Lists.{contains, all}
use mathlib.Core.Bool.{Bool, true, false, not, ◌&&◌}
use mathlib.Core.List.{List, [], ◌∷◌}
use mathlib.Core.Logic.{◌↔◌, inl, inr}
use mathlib.Core.Path.{◌≡◌, refl}
use native.Mathlib.Omega.{arith}

module _ {ℓ} {A : Type ℓ} ⦃e : Eq A⦄ where
  -- `set(xs) == set(ys)`
  abbrev pub same_set : List A → List A → Bool
  same_set xs ys = all (λ x. contains x ys) xs && all (λ y. contains y xs) ys

  -- `len(xs) == len(set(xs))`
  abbrev pub distinct : List A → Bool
  distinct [] = true
  distinct (x ∷ xs) = not (contains x xs) && distinct xs

  contains→mem : (a : A) (xs : List A) → contains a xs ≡ true → Mem a xs
  contains→mem a [] h = cc
  contains→mem a (x ∷ xs) h = elim (Bool-cases (a == x)) [
    | inl same ↦ mem-cons.1 (Or.inl ((e.equal_iff a x).0 same))
    | inr other ↦ mem-cons_of_mem x (contains→mem a xs (rw other at h))
  ]

  mem→contains : (a : A) (xs : List A) → Mem a xs → contains a xs ≡ true
  mem→contains a [] m = absurd (not-mem-nil m)
  mem→contains a (x ∷ xs) m =
      Or.elim (Bool-set _ _) (mem-cons.0 m) (λ p. rw (p, beq_refl x))
        (λ q. ground (arith, mem→contains a xs q))

  -- `in` on a list is membership.
  pub contains_iff : (a : A) (xs : List A) → (contains a xs ≡ true) ↔ Mem a xs
  contains_iff a xs = (contains→mem a xs, mem→contains a xs)

  pub distinct→Nodup : (xs : List A) → distinct xs ≡ true → Nodup xs
  distinct→Nodup [] h = Nodup-nil
  distinct→Nodup (x ∷ xs) h =
      Nodup-cons.1 ((λ m. cc (mem→contains x xs m, split.0)), distinct→Nodup xs split.1)
    where
      split : (contains x xs ≡ false) × (distinct xs ≡ true)
      split = ground arith

  pub Nodup→distinct : (xs : List A) → Nodup xs → distinct xs ≡ true
  Nodup→distinct [] n = refl
  Nodup→distinct (x ∷ xs) n = elim (Bool-cases (contains x xs)) [
    | inl found ↦ absurd ((Nodup-cons.0 n).0 (contains→mem x xs found))
    | inr absent ↦ rw absent (Nodup→distinct xs (Nodup-cons.0 n).1)
  ]

  all-contains→mem :
      (xs ys : List A) (a : A) → all (λ x. contains x ys) xs ≡ true → Mem a xs → Mem a ys
  all-contains→mem [] ys a h m = absurd (not-mem-nil m)
  all-contains→mem (x ∷ xs) ys a h m =
      Or.elim Mem-prop (mem-cons.0 m) (λ p. rw p (contains→mem x ys split.0))
        (λ q. all-contains→mem xs ys a split.1 q)
    where
      split : (contains x ys ≡ true) × (all (λ x. contains x ys) xs ≡ true)
      split = ground arith

  mem→all-contains :
      (xs ys : List A) → ((a : A) → Mem a xs → Mem a ys) → all (λ x. contains x ys) xs ≡ true
  mem→all-contains [] ys h = refl
  mem→all-contains (x ∷ xs) ys h =
      rw (mem→contains x ys (h x mem-cons_self))
        (mem→all-contains xs ys (λ a m. h a (mem-cons_of_mem x m)))

  -- Distinct texts that are the set `ys` are `ys` in some order.
  pub same_set→Perm :
      (xs ys : List A) → distinct xs ≡ true → Nodup ys → same_set xs ys ≡ true → Perm xs ys
  same_set→Perm xs ys d n h =
      (perm_ext_iff_of_Nodup (distinct→Nodup xs d) n).1
        (λ a. (all-contains→mem xs ys a split.0, all-contains→mem ys xs a split.1))
    where
      split : (all (λ x. contains x ys) xs ≡ true) × (all (λ y. contains y xs) ys ≡ true)
      split = ground arith

  pub Perm→same_set : (xs ys : List A) → Perm xs ys → same_set xs ys ≡ true
  Perm→same_set xs ys p =
      rw (mem→all-contains xs ys (λ a. (Perm.mem_iff p).0))
        (mem→all-contains ys xs (λ a. (Perm.mem_iff p).1))

  pub Perm→distinct : (xs ys : List A) → Perm xs ys → Nodup ys → distinct xs ≡ true
  Perm→distinct xs ys p n = Nodup→distinct xs (Perm.nodup (Perm.symm p) n)

  pub same_set→mem_iff : (xs ys : List A) → same_set xs ys ≡ true → (a : A) → Mem a xs ↔ Mem a ys
  same_set→mem_iff xs ys h a = (all-contains→mem xs ys a split.0, all-contains→mem ys xs a split.1)
    where
      split : (all (λ x. contains x ys) xs ≡ true) × (all (λ y. contains y xs) ys ≡ true)
      split = ground arith

  pub mem_iff→same_set : (xs ys : List A) → ((a : A) → Mem a xs ↔ Mem a ys) → same_set xs ys ≡ true
  mem_iff→same_set xs ys h =
      rw (mem→all-contains xs ys (λ a. (h a).0)) (mem→all-contains ys xs (λ a. (h a).1))
