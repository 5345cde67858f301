-- ===== src/Common/Predicate.antt =====
-- What holds of all rows of a table, and of all pairs of rows.
use Prim.Native.Nat.{◌≤◌}
use mathlib.Core.Path.{◌≡◌, refl, subst, ap}
use mathlib.Core.Logic.{inl, inr}
use mathlib.Core.Bool.{Bool, true, false, ◌||◌}
use mathlib.Core.Option
use mathlib.Core.Option.{none, some}
use mathlib.Core.List.{List, [], ◌∷◌, map}
use native.Mathlib.Omega.{arith}
use backup_management_center.Common.Tests.{if◌then◌else◌, Bool-cases, or-false, or-false_of}
use backup_management_center.Common.Table.{
  find_where, any_where, delete_where, select_where, count_where, update_where, on_where,
}

abbrev pub All {ℓ κ} : {A : Type ℓ} → (A → Type κ) → List A → Type κ
All P [] = Unit
All P (x ∷ xs) = P x × All P xs

-- No row clashes with a later one.
abbrev pub NoClash {ℓ} : {A : Type ℓ} → (A → A → Bool) → List A → Type 0
NoClash clash [] = Unit
NoClash clash (x ∷ xs) = (any_where (clash x) xs ≡ false) × NoClash clash xs

module _ {ℓ κ} {A : Type ℓ} where
  pub All-map :
      (P : A → Type κ) (g : A → A) (xs : List A) → All (λ x. P (g x)) xs → All P (map g xs)
  All-map P g [] h = tt
  All-map P g (x ∷ xs) h = (h.0, All-map P g xs h.1)

  pub All-delete_where :
      (P : A → Type κ) (p : A → Bool) (xs : List A) → All P xs → All P (delete_where p xs)
  All-delete_where P p [] h = tt
  All-delete_where P p (x ∷ xs) h = elim (Bool-cases (p x)) [
    | inl e ↦ rw e (All-delete_where P p xs h.1)
    | inr e ↦ rw e (h.0, All-delete_where P p xs h.1)
  ]

  pub All-of : (P : A → Type κ) → ((x : A) → P x) → (xs : List A) → All P xs
  All-of P h [] = tt
  All-of P h (x ∷ xs) = (h x, All-of P h xs)

  pub All-weaken :
      (P : A → Type κ) (Q : A → Type κ)
      → ((x : A) → P x → Q x)
      → (xs : List A) → All P xs
      → All Q xs
  All-weaken P Q f [] h = tt
  All-weaken P Q f (x ∷ xs) h = (f x h.0, All-weaken P Q f xs h.1)

module _ {ℓ} {A : Type ℓ} where
  -- The row that a query finds meets the query.
  pub find_where-some : (p : A → Bool) (xs : List A) (a : A) → find_where p xs ≡ some a → p a ≡ true
  find_where-some p [] a h = cc
  find_where-some p (x ∷ xs) a h = ground (arith, find_where-some p xs a)

  pub find_where-none :
      (p : A → Bool) (xs : List A) → find_where p xs ≡ none → any_where p xs ≡ false
  find_where-none p [] h = refl
  find_where-none p (x ∷ xs) h = ground (arith, find_where-none p xs)

  pub any_where-find :
      (p : A → Bool) (xs : List A) (a : A) → find_where p xs ≡ some a → any_where p xs ≡ true
  any_where-find p [] a h = cc
  any_where-find p (x ∷ xs) a h = ground (arith, any_where-find p xs a)

  find_where-here :
      (p : A → Bool) (x : A) (xs : List A) (a : A)
      → p x ≡ true
      → find_where p (x ∷ xs) ≡ some a
      → x ≡ a
  find_where-here p x xs a e h = ground arith

  find_where-later :
      (p : A → Bool) (x : A) (xs : List A) (a : A)
      → p x ≡ false
      → find_where p (x ∷ xs) ≡ some a
      → find_where p xs ≡ some a
  find_where-later p x xs a e h = ground arith

  -- What holds of all rows holds of the one found.
  pub All-found {κ} :
      (P : A → Type κ) (p : A → Bool) (xs : List A) (a : A)
      → All P xs
      → find_where p xs ≡ some a
      → P a
  All-found P p [] a all h = absurd (cc)
  All-found P p (x ∷ xs) a all h = elim (Bool-cases (p x)) [
    | inl e ↦ subst P (find_where-here p x xs a e h) all.0
    | inr e ↦ All-found P p xs a all.1 (find_where-later p x xs a e h)
  ]

  -- A row that meets `p`, of a table in which no row does.
  pub any_where-false :
      (p : A → Bool) (xs : List A) → any_where p xs ≡ false → All (λ x. p x ≡ false) xs
  any_where-false p [] h = tt
  any_where-false p (x ∷ xs) h =
      let (here, later) = or-false (p x) (any_where p xs) h in (here, any_where-false p xs later)

  pub any_where-false_of :
      (p : A → Bool) (xs : List A) → All (λ x. p x ≡ false) xs → any_where p xs ≡ false
  any_where-false_of p [] h = refl
  any_where-false_of p (x ∷ xs) h = or-false_of _ _ h.0 (any_where-false_of p xs h.1)

  pub NoClash-delete_where :
      (clash : A → A → Bool) (p : A → Bool) (xs : List A)
      → NoClash clash xs
      → NoClash clash (delete_where p xs)
  NoClash-delete_where clash p [] h = tt
  NoClash-delete_where clash p (x ∷ xs) h = elim (Bool-cases (p x)) [
    | inl e ↦ rw e (NoClash-delete_where clash p xs h.1)
    | inr e ↦ rw e (
      any_where-false_of (clash x) (delete_where p xs)
          (All-delete_where (λ y. clash x y ≡ false) p xs (any_where-false (clash x) xs h.0)),
      NoClash-delete_where clash p xs h.1,
    )
  ]

module _ {ℓ} {A : Type ℓ} (clash : A → A → Bool) (Shrinks : A → A → Type 0) (g : A → A)
    (reflects : (x y : A)
      → Shrinks x (g x)
      → Shrinks y (g y)
      → clash (g x) (g y) ≡ true
      → clash x y ≡ true) where
  any_where-clash-map :
      (x : A) (ys : List A)
      → Shrinks x (g x)
      → All (λ y. Shrinks y (g y)) ys
      → any_where (clash x) ys ≡ false
      → any_where (clash (g x)) (map g ys) ≡ false
  any_where-clash-map x [] s all h = refl
  any_where-clash-map x (y ∷ ys) s all h =
      ground (arith, reflects x y s all.0, any_where-clash-map x ys s all.1)

  -- An update under which rows clash only if they did before adds no clash.
  pub NoClash-map :
      (xs : List A) → All (λ x. Shrinks x (g x)) xs → NoClash clash xs → NoClash clash (map g xs)
  NoClash-map [] all h = tt
  NoClash-map (x ∷ xs) all h = (any_where-clash-map x xs all.0 all.1 h.0, NoClash-map xs all.1 h.1)

module _ {ℓ} {A : Type ℓ} (clash : A → A → Bool) (key : A → Bool)
    (collide : (x y : A) → key x ≡ true → key y ≡ true → clash x y ≡ true) where
  not_key :
      (x : A) (xs : List A)
      → key x ≡ true
      → any_where (clash x) xs ≡ false
      → All (λ y. key y ≡ true → y ≡ x) xs
  not_key x [] k h = tt
  not_key x (y ∷ ys) k h =
      ((λ e. ground (arith, collide x y k e)), not_key x ys k (or-false _ _ h).1)

  -- Of a table with no clash, the row found by a key is the only one with that key.
  pub found_unique :
      (xs : List A) (a : A)
      → NoClash clash xs
      → find_where key xs ≡ some a
      → All (λ y. key y ≡ true → y ≡ a) xs
  found_unique [] a u h = tt
  found_unique (x ∷ xs) a u h = elim (Bool-cases (key x)) [
    | inl e ↦ (
      (λ k. find_where-here key x xs a e h),
      subst (λ b. All (λ y. key y ≡ true → y ≡ b) xs) (find_where-here key x xs a e h)
          (not_key x xs e u.0),
    )
    | inr e ↦ ((λ k. absurd (cc)), found_unique xs a u.1 (find_where-later key x xs a e h))
  ]

module _ {ℓ} {A : Type ℓ} where
  -- Reading through an update that keeps what the query reads.
  pub find_where-map :
      (p : A → Bool) (g : A → A) (xs : List A)
      → ((x : A) → p (g x) ≡ p x)
      → find_where p (map g xs) ≡ Option.map g (find_where p xs)
  find_where-map p g [] h = refl
  find_where-map p g (x ∷ xs) h = elim (Bool-cases (p x)) [
    | inl e ↦ rw (h x, e)
    | inr e ↦ rw (h x, e) (find_where-map p g xs h)
  ]

  -- An update that makes no further row meet the test does not raise the count.
  pub count_where-map-le :
      (p : A → Bool) (g : A → A) (xs : List A)
      → All (λ x. p (g x) ≡ true → p x ≡ true) xs
      → count_where p (map g xs) ≤ count_where p xs
  count_where-map-le p g [] h = omega arith
  count_where-map-le p g (x ∷ xs) h = ground (arith, h.0, count_where-map-le p g xs h.1)

  pub count_where-none :
      (p : A → Bool) (xs : List A) → any_where p xs ≡ false → count_where p xs ≡ 0
  count_where-none p [] h = refl
  count_where-none p (x ∷ xs) h = ground (arith, count_where-none p xs)

  -- A query that an update does not see through.
  pub any_where-map :
      (p : A → Bool) (g : A → A) (xs : List A)
      → ((x : A) → p (g x) ≡ p x)
      → any_where p (map g xs) ≡ any_where p xs
  any_where-map p g [] h = refl
  any_where-map p g (x ∷ xs) h = rw (h x) (ap (λ b. p x || b) (any_where-map p g xs h))

  pub any_where-weaken :
      (p q : A → Bool) (xs : List A)
      → ((x : A) → p x ≡ true → q x ≡ true)
      → any_where q xs ≡ false
      → any_where p xs ≡ false
  any_where-weaken p q [] f h = refl
  any_where-weaken p q (x ∷ xs) f h = ground (arith, f x, any_where-weaken p q xs f)

  pub any_where-select :
      (p : A → Bool) (xs : List A) → select_where p xs ≡ [] → any_where p xs ≡ false
  any_where-select p [] h = refl
  any_where-select p (x ∷ xs) h = ground (arith, any_where-select p xs)

  -- An update of the rows that meet `p` keeps what it keeps of each of them.
  pub All-update_where {κ} :
      (P : A → Type κ) (p : A → Bool) (f : A → A) (xs : List A)
      → All (λ x. p x ≡ true → P x → P (f x)) xs
      → All P xs
      → All P (update_where p f xs)
  All-update_where P p f [] h all = tt
  All-update_where P p f (x ∷ xs) h all = elim (Bool-cases (p x)) [
    | inl e ↦ rw e (h.0 e all.0, All-update_where P p f xs h.1 all.1)
    | inr e ↦ rw e (all.0, All-update_where P p f xs h.1 all.1)
  ]

  -- Two updates in a row, as one.
  pub update_where-twice :
      (p q : A → Bool) (f g h : A → A) (xs : List A)
      → ((x : A) → on_where q g (on_where p f x) ≡ on_where q h x)
      → update_where q g (update_where p f xs) ≡ update_where q h xs
  update_where-twice p q f g h [] e = refl
  update_where-twice p q f g h (x ∷ xs) e =
      rw (e x) (ap (λ r. on_where q h x ∷ r) (update_where-twice p q f g h xs e))

-- Of an upsert, the written row has the property, and the others keep it.
module _ {ℓ κ} {A : Type ℓ} (P : A → Type κ) (p : A → Bool) (c : A) (new : P c) where
  All-overwritten :
      (rows : List A) → All (λ x. p x ≡ false → P x) rows → All P (update_where p (λ _. c) rows)
  All-overwritten [] h = tt
  All-overwritten (x ∷ xs) h = elim (Bool-cases (p x)) [
    | inl e ↦ rw e (new, All-overwritten xs h.1)
    | inr e ↦ rw e (h.0 e, All-overwritten xs h.1)
  ]

  All-spared :
      (rows : List A) → All (λ x. p x ≡ false → P x) rows → any_where p rows ≡ false → All P rows
  All-spared [] h e = tt
  All-spared (x ∷ xs) h e = (h.0 (ground arith), All-spared xs h.1 (ground arith))

  pub All-upsert :
      (rows : List A)
      → All (λ x. p x ≡ false → P x) rows
      → All P (if any_where p rows then update_where p (λ _. c) rows else c ∷ rows)
  All-upsert rows old = elim (Bool-cases (any_where p rows)) [
    | inl e ↦ rw e (All-overwritten rows old)
    | inr e ↦ rw e (new, All-spared rows old e)
  ]
