-- ===== src/Base/Decisions.antt =====
-- How a Boolean test that decides a statement is put together from tests that decide its parts.
use mathlib.Core.Path.{◌≡◌, refl}
use mathlib.Core.Logic.{◌↔◌, ◌⊎◌, inl, inr}
use mathlib.Core.Bool.{Bool, true, false, not, ◌&&◌, ◌||◌}
use mathlib.Core.List.{List}
use gostore.Base.Tests.{if◌then◌else◌}
use gostore.Base.Lists.{any, all, Any, All, any_iff, all_iff, Any-map, All-map}

-- The test passes exactly if the statement holds.
abbrev pub Decides {ℓ} : Bool → Type ℓ → Type ℓ
Decides b P = (b ≡ true) ↔ P

module _ {ℓ} {P : Type ℓ} where
  pub not_of_Decides : {b : Bool} → Decides b P → b ≡ false → ¬ P
  not_of_Decides p e x = cc (p.1 x)

module _ {ℓ κ} {P : Type ℓ} {Q : Type κ} where
  pub or-Decides : (b c : Bool) → Decides b P → Decides c Q → Decides (b || c) (P ⊎ Q)
  or-Decides true c p q = (λ _. inl (p.0 refl), λ _. refl)
  or-Decides false c p q =
      (λ h. inr (q.0 h), λ h. elim h [ inl x ↦ absurd (cc (p.1 x)) | inr y ↦ q.1 y ])

  pub and-Decides : (b c : Bool) → Decides b P → Decides c Q → Decides (b && c) (P × Q)
  and-Decides true c p q = (λ h. (p.0 refl, q.0 h), λ h. q.1 h.1)
  and-Decides false c p q = (λ h. absurd (cc), λ h. p.1 h.0)

  -- An early `return true`.
  pub if_true-Decides :
      (b c : Bool) → Decides b P → Decides c Q → Decides (if b then true else c) (P ⊎ Q)
  if_true-Decides true c p q = or-Decides true c p q
  if_true-Decides false c p q = or-Decides false c p q

  -- An early `return false`.
  pub if_false-Decides :
      (b c : Bool) → Decides b P → Decides c Q → Decides (if b then false else c) (¬ P × Q)
  if_false-Decides true c p q = (λ h. absurd (cc), λ h. absurd (h.0 (p.0 refl)))
  if_false-Decides false c p q = (λ h. (λ x. absurd (cc (p.1 x)), q.0 h), λ h. q.1 h.1)

  pub Decides-map : {b : Bool} → (P → Q) → (Q → P) → Decides b P → Decides b Q
  Decides-map f g p = (λ h. f (p.0 h), λ y. p.1 (g y))

module _ {ℓ κ κ'} {P : Type ℓ} {Q : Type κ} {R : Type κ'} where
  pub if-Decides :
      (b c d : Bool)
      → Decides b P
      → Decides c Q
      → Decides d R
      → Decides (if b then c else d) (P × Q ⊎ (¬ P) × R)
  if-Decides true c d p q r = (
    λ h. inl (p.0 refl, q.0 h),
    λ h. elim h [ inl x ↦ q.1 x.1 | inr y ↦ absurd (y.0 (p.0 refl)) ],
  )
  if-Decides false c d p q r = (
    λ h. inr (not_of_Decides p refl, r.0 h),
    λ h. elim h [ inl x ↦ absurd (not_of_Decides p refl x.0) | inr y ↦ r.1 y.1 ],
  )

module _ {ℓ} {P : Type ℓ} where
  pub not-Decides : (b : Bool) → Decides b P → Decides (not b) (¬ P)
  not-Decides true p = (λ h. absurd (cc), λ h. absurd (h (p.0 refl)))
  not-Decides false p = (λ _ x. absurd (cc (p.1 x)), λ _. refl)

module _ {ℓ κ} {A : Type ℓ} {P : A → Type κ} (p : A → Bool)
    (d : (x : A) → Decides (p x) (P x)) where
  pub any-Decides : (xs : List A) → Decides (any p xs) (Any P xs)
  any-Decides xs = (
    λ h. Any-map (λ x. (d x).0) ((any_iff p xs).0 h),
    λ h. (any_iff p xs).1 (Any-map (λ x. (d x).1) h),
  )

  pub all-Decides : (xs : List A) → Decides (all p xs) (All P xs)
  all-Decides xs = (
    λ h. All-map (λ x. (d x).0) xs ((all_iff p xs).0 h),
    λ h. (all_iff p xs).1 (All-map (λ x. (d x).1) xs h),
  )
