-- ===== src/Prelude/Sorting.antt =====
-- `ORDER BY`, as insertion sort by a Boolean comparison, and why the outcome does not depend on the
-- order in which the rows are stored.
use Prim.Native.Nat.{ℕ, suc}
use mathlib.Core.Path.{◌≡◌, refl, ap, sym, subst, ◌∙◌}
use mathlib.Core.Logic.{inl, inr}
use mathlib.Core.Bool.{Bool, true, false, ◌||◌}
use mathlib.Core.List.{List, [], ◌∷◌}
use mathlib.Core.List.{Permᴰ}
use mathlib.Core.List.Permᴰ
use native.Mathlib.Omega.{arith}
use real_estate_webapp.Prelude.Tests.{if◌then◌else◌, Bool-cases, ◌==◌}
use real_estate_webapp.Prelude.Lists.{length, All, All-map, any}
use real_estate_webapp.Prelude.Keys.{IsKeyed}

module _ {ℓ} {A : Type ℓ} (le : A → A → Bool) where
  unfoldable pub insert_by : A → List A → List A
  insert_by x [] = x ∷ []
  insert_by x (y ∷ ys) = if le x y then x ∷ y ∷ ys else y ∷ insert_by x ys

  unfoldable pub sort_by : List A → List A
  sort_by [] = []
  sort_by (x ∷ xs) = insert_by x (sort_by xs)

  -- Every row comes before all that follow it.
  abbrev pub IsOrdered : List A → Type 0
  IsOrdered [] = Unit
  IsOrdered (x ∷ xs) = All (λ y. le x y ≡ true) xs × IsOrdered xs

  length-insert_by : (x : A) (ys : List A) → length (insert_by x ys) ≡ suc (length ys)
  unfolding insert_by
  length-insert_by x [] = refl
  length-insert_by x (y ∷ ys) = elim (Bool-cases (le x y)) [
    | inl on ↦ rw (on) refl
    | inr off ↦ rw (off) (ap suc (length-insert_by x ys))
  ]

  pub length-sort_by : (xs : List A) → length (sort_by xs) ≡ length xs
  unfolding sort_by
  length-sort_by [] = refl
  length-sort_by (x ∷ xs) = length-insert_by x (sort_by xs) ∙ ap suc (length-sort_by xs)

  perm-insert_by : (x : A) (ys : List A) → Permᴰ (insert_by x ys) (x ∷ ys)
  unfolding insert_by
  perm-insert_by x [] = Permᴰ.cons refl Permᴰ.nil
  perm-insert_by x (y ∷ ys) = elim (Bool-cases (le x y)) [
    | inl on ↦ rw (on) (Permᴰ.cons refl (Permᴰ.cons refl (Permᴰ.refl ys)))
    | inr off ↦
        rw (off) (Permᴰ.trans (Permᴰ.cons refl (perm-insert_by x ys)) (Permᴰ.swap refl refl))
  ]

  -- Nothing is lost and nothing is repeated.
  pub perm-sort_by : (xs : List A) → Permᴰ (sort_by xs) xs
  unfolding sort_by
  perm-sort_by [] = Permᴰ.nil
  perm-sort_by (x ∷ xs) =
      Permᴰ.trans (perm-insert_by x (sort_by xs)) (Permᴰ.cons refl (perm-sort_by xs))

  -- Rows that are in order already stay.
  pub sort_by-ordered : (xs : List A) → IsOrdered xs → sort_by xs ≡ xs
  unfolding sort_by insert_by
  sort_by-ordered [] h = refl
  sort_by-ordered (x ∷ []) h = refl
  sort_by-ordered (x ∷ y ∷ ys) ((on, _), h) = rw (sort_by-ordered (y ∷ ys) h, on) refl

  -- The comparison is total, transitive, and ties only rows of one key.
  pub record IsOrder (key : A → ℕ) : Type ℓ where
    pub total : (x y : A) → le x y ≡ false → le y x ≡ true
    pub trans : (x y z : A) → le x y ≡ true → le y z ≡ true → le x z ≡ true
    pub tied : (x y : A) → le x y ≡ true → le y x ≡ true → key x ≡ key y

module _ {ℓ} {A : Type ℓ} (le : A → A → Bool) (key : A → ℕ) (o : IsOrder le key) where
  -- Two rows of different keys are inserted in either order.
  insert_by_comm :
      (x y : A) (xs : List A)
      → key x == key y ≡ false
      → insert_by le x (insert_by le y xs) ≡ insert_by le y (insert_by le x xs)
  unfolding insert_by
  insert_by_comm x y [] apart = elim (Bool-cases (le x y)) [
    | inl xy ↦ elim (Bool-cases (le y x)) [
      | inl yx ↦ ground (arith, o.tied x y xy yx, apart)
      | inr not_yx ↦ rw (xy, not_yx) refl
    ]
    | inr not_xy ↦ rw (not_xy, o.total x y not_xy) refl
  ]
  insert_by_comm x y (z ∷ zs) apart = elim (Bool-cases (le x y)) [
    | inl xy ↦ elim (Bool-cases (le y x)) [
      | inl yx ↦ ground (arith, o.tied x y xy yx, apart)
      | inr not_yx ↦ elim (Bool-cases (le y z)) [
        | inl yz ↦ rw (yz, xy, o.trans x y z xy yz, not_yx, yz) refl
        | inr not_yz ↦ elim (Bool-cases (le x z)) [
          | inl xz ↦ rw (not_yz, xz, not_yx, not_yz) refl
          | inr not_xz ↦ rw (not_yz, not_xz, not_yz) (ap (◌∷◌ z) (insert_by_comm x y zs apart))
        ]
      ]
    ]
    | inr not_xy ↦
        let yx = o.total x y not_xy in
        elim (Bool-cases (le x z)) [
          | inl xz ↦ rw (o.trans y x z yx xz, not_xy, xz, yx) refl
          | inr not_xz ↦ elim (Bool-cases (le y z)) [
            | inl yz ↦ rw (yz, not_xy, not_xz, yz) refl
            | inr not_yz ↦ rw (not_yz, not_xz, not_yz) (ap (◌∷◌ z) (insert_by_comm x y zs apart))
          ]
        ]
  ]

or_swap : (a b c : Bool) → a || (b || c) ≡ b || (a || c)
or_swap a b c = ground arith

pub any-perm {ℓ} : {A : Type ℓ} (p : A → Bool) {xs ys : List A} → Permᴰ xs ys → any p xs ≡ any p ys
unfolding any
any-perm p Permᴰ.nil = refl
any-perm p (Permᴰ.cons e d) = λ i. p (e i) || any-perm p d i
any-perm p (Permᴰ.swap {a = a} {b = b} {a' = a'} {b' = b'} {l = l} e f) =
    (λ i. p (e i) || (p (f i) || any p l)) ∙ or_swap (p b') (p a') (any p l)
any-perm p (Permᴰ.trans d e) = any-perm p d ∙ any-perm p e

IsKeyed-perm {ℓ} :
    {A : Type ℓ} (key : A → ℕ) {xs ys : List A} → Permᴰ xs ys → IsKeyed key xs → IsKeyed key ys
unfolding any
IsKeyed-perm {A} key Permᴰ.nil k = k
IsKeyed-perm {A} key (Permᴰ.cons {a = a} {b = b} {l₁ = xs} {l₂ = ys} e d) (fresh, k) = (
  sym (any-perm (λ y. key y == key b) d)
      ∙ ap (λ (c : A). any (λ y. key y == key c) xs) (sym e)
      ∙ fresh,
  IsKeyed-perm key d k,
)
IsKeyed-perm {A} key (Permᴰ.swap {a = a} {b = b} {a' = a'} {b' = b'} {l = l} e f)
      (fresh, (fresh', k)) =
    let swapped : IsKeyed key (b ∷ a ∷ l) =
      (ground (arith, fresh, fresh'), (ground (arith, fresh), k)) in
    subst (λ (q : A × A). IsKeyed key (q.0 ∷ q.1 ∷ l)) (λ i. (f i, e i)) swapped
IsKeyed-perm {A} key (Permᴰ.trans d e) k = IsKeyed-perm key e (IsKeyed-perm key d k)

module _ {ℓ} {A : Type ℓ} (le : A → A → Bool) (key : A → ℕ) (o : IsOrder le key) where
  -- Sorting forgets the order in which the rows are stored.
  pub sort_by-perm : {xs ys : List A} → Permᴰ xs ys → IsKeyed key xs → sort_by le xs ≡ sort_by le ys
  unfolding sort_by any
  sort_by-perm Permᴰ.nil k = refl
  sort_by-perm (Permᴰ.cons e d) (fresh, k) = λ i. insert_by le (e i) (sort_by-perm d k i)
  sort_by-perm (Permᴰ.swap {a = a} {b = b} {l = l} e f) (fresh, k) =
      insert_by_comm le key o a b (sort_by le l) (ground (arith, fresh))
      ∙ (λ i. insert_by le (f i) (insert_by le (e i) (sort_by le l)))
  sort_by-perm (Permᴰ.trans d e) k = sort_by-perm d k ∙ sort_by-perm e (IsKeyed-perm key d k)

  All-insert_by :
      (P : A → Type 0) (x : A) (ys : List A) → P x → All P ys → All P (insert_by le x ys)
  unfolding insert_by
  All-insert_by P x [] h hs = (h, tt)
  All-insert_by P x (y ∷ ys) h (hy, hs) = elim (Bool-cases (le x y)) [
    | inl on ↦ rw (on) (h, (hy, hs))
    | inr off ↦ rw (off) (hy, All-insert_by P x ys h hs)
  ]

  insert_by-IsOrdered : (x : A) (ys : List A) → IsOrdered le ys → IsOrdered le (insert_by le x ys)
  unfolding insert_by
  insert_by-IsOrdered x [] h = (tt, tt)
  insert_by-IsOrdered x (y ∷ ys) (below, h) = elim (Bool-cases (le x y)) [
    | inl on ↦ rw (on) (
      (
        on,
        All-map (λ z. le y z ≡ true) (λ z. le x z ≡ true) (λ z yz. o.trans x y z on yz) ys below,
      ),
      (below, h),
    )
    | inr off ↦ rw (off) (
      All-insert_by (λ z. le y z ≡ true) x ys (o.total x y off) below,
      insert_by-IsOrdered x ys h,
    )
  ]

  pub sort_by-IsOrdered : (xs : List A) → IsOrdered le (sort_by le xs)
  unfolding sort_by
  sort_by-IsOrdered [] = tt
  sort_by-IsOrdered (x ∷ xs) = insert_by-IsOrdered x (sort_by le xs) (sort_by-IsOrdered xs)

  pub All-sort_by : (P : A → Type 0) (xs : List A) → All P xs → All P (sort_by le xs)
  unfolding sort_by
  All-sort_by P [] h = tt
  All-sort_by P (x ∷ xs) (h, hs) = All-insert_by P x (sort_by le xs) h (All-sort_by P xs hs)
