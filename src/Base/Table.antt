-- ===== src/Base/Table.antt =====
-- A database table as a list of rows, with the queries that the source sends: a row by a test, an
-- update of the rows that pass a test, and the count behind a partial unique index.
use Prim.Native.Nat.{ℕ, suc, ◌≤◌}
use mathlib.Core.Path.{◌≡◌, refl}
use mathlib.Core.Logic.{◌⊎◌, inl, inr}
use mathlib.Core.Bool.{Bool, true, false, ◌&&◌}
use mathlib.Core.Option.{Option, none, some}
use mathlib.Core.List.{List, [], ◌∷◌}
use native.Mathlib.Omega.{arith}
use itcenter.Base.Tests.{if◌then◌else◌, Bool-cases}
use itcenter.Base.Lists.{any, keep}

module _ {A : Type 0} where
  -- `SELECT … WHERE p`, its first row.
  unfoldable pub find_where : (A → Bool) → List A → Option A
  find_where p [] = none
  find_where p (x ∷ xs) = if p x then some x else find_where p xs

  -- `UPDATE … SET f WHERE p`.
  unfoldable pub update_where : (A → Bool) → (A → A) → List A → List A
  update_where p f [] = []
  update_where p f (x ∷ xs) = (if p x then f x else x) ∷ update_where p f xs

  unfoldable pub count_where : (A → Bool) → List A → ℕ
  count_where p [] = 0
  count_where p (x ∷ xs) = let rest = count_where p xs in if p x then suc rest else rest

  pub find_where-holds :
      (p : A → Bool) (xs : List A) (a : A) → find_where p xs ≡ some a → p a ≡ true
  unfolding find_where
  find_where-holds p [] a h = cc
  find_where-holds p (x ∷ xs) a h = ground (arith, find_where-holds p xs a)

  -- A query returns the first row, or one of the others.
  pub first_row :
      (p : A → Bool) (x : A) (xs : List A) (a : A)
      → find_where p (x ∷ xs) ≡ some a
      → ((p x ≡ true) × (a ≡ x)) ⊎ ((p x ≡ false) × (find_where p xs ≡ some a))
  unfolding find_where
  first_row p x xs a h = elim (Bool-cases (p x)) [
    | inl e ↦ inl (e, ground arith)
    | inr e ↦ inr (e, ground arith)
  ]

  -- An update that keeps the test true is seen by the next query of the same row.
  pub find_where-update_where :
      (p : A → Bool) (f : A → A) (xs : List A) (a : A)
      → ((b : A) → p b ≡ true → p (f b) ≡ true)
      → find_where p xs ≡ some a
      → find_where p (update_where p f xs) ≡ some (f a)
  unfolding find_where update_where
  find_where-update_where p f [] a keeps h = cc
  find_where-update_where p f (x ∷ xs) a keeps h =
      ground (arith, keeps x, find_where-update_where p f xs a keeps)

  -- What the query of the updated rows returns, found or not.
  pub find_where-update_map :
      (p : A → Bool) (f : A → A) (xs : List A)
      → ((b : A) → p b ≡ true → p (f b) ≡ true)
      → find_where p (update_where p f xs)
        ≡ elim (find_where p xs) as (λ _. Option A) [ none ↦ none | some a ↦ some (f a) ]
  unfolding find_where update_where
  find_where-update_map p f [] keeps = refl
  find_where-update_map p f (x ∷ xs) keeps =
      ground (arith, keeps x, find_where-update_map p f xs keeps)

  -- An update that takes in the row of a narrower query.
  pub find_where-update_seen :
      (q p : A → Bool) (f : A → A) (xs : List A) (a : A)
      → ((b : A) → q b ≡ true → p b ≡ true)
      → ((b : A) → q (f b) ≡ q b)
      → find_where q xs ≡ some a
      → find_where q (update_where p f xs) ≡ some (f a)
  unfolding find_where update_where
  find_where-update_seen q p f [] a within same h = cc
  find_where-update_seen q p f (x ∷ xs) a within same h =
      ground (arith, within x, same x, find_where-update_seen q p f xs a within same)

  -- Rows that a query of `q` returns are untouched by an update of `p`, where no row passes both.
  pub find_where-update_other :
      (q p : A → Bool) (f : A → A) (xs : List A)
      → ((b : A) → p b ≡ true → q b ≡ false)
      → ((b : A) → p b ≡ true → q (f b) ≡ false)
      → find_where q (update_where p f xs) ≡ find_where q xs
  unfolding find_where update_where
  find_where-update_other q p f [] apart apart' = refl
  find_where-update_other q p f (x ∷ xs) apart apart' =
      ground (arith, apart x, apart' x, find_where-update_other q p f xs apart apart')

  -- A query of the updated rows returns the update of a row that it concerned, or a row that it did not.
  pub changed_row :
      (p q : A → Bool) (f : A → A) (rows : List A) (t : A)
      → ((b : A) → q (f b) ≡ q b)
      → find_where q (update_where p f rows) ≡ some t
      → (b : A) × (find_where q rows ≡ some b)
        × (((p b ≡ true) × (t ≡ f b)) ⊎ ((p b ≡ false) × (t ≡ b)))
  unfolding find_where update_where
  changed_row p q f [] t same' h = cc
  changed_row p q f (x ∷ xs) t same' h = elim (Bool-cases (q x)) [
    | inl e ↦ elim (Bool-cases (p x)) [
      | inl e' ↦ (x, ground arith, inl (e', ground (arith, same' x)))
      | inr e' ↦ (x, ground arith, inr (e', ground arith))
    ]
    | inr e ↦
        let (b, found, way) = changed_row p q f xs t same' (ground (arith, same' x)) in
        (b, ground arith, way)
  ]

  pub updated_row :
      (p q : A → Bool) (f : A → A) (rows : List A) (t : A)
      → ((b : A) → p (f b) ≡ p b)
      → ((b : A) → q (f b) ≡ q b)
      → find_where q (update_where p f rows) ≡ some t
      → (b : A) × (find_where q rows ≡ some b) × (((p b ≡ true) × (t ≡ f b)) ⊎ (t ≡ b))
  updated_row p q f rows t same same' h =
      let (b, found, way) = changed_row p q f rows t same' h in
      (b, found, elim way [ inl w ↦ inl w | inr (e, k) ↦ inr k ])

  -- What becomes of the row that a query returns, if the update leaves the test as it is.
  pub find_where-update_any :
      (q p : A → Bool) (f : A → A) (xs : List A) (a : A)
      → ((b : A) → q (f b) ≡ q b)
      → find_where q xs ≡ some a
      → find_where q (update_where p f xs) ≡ some (if p a then f a else a)
  unfolding find_where update_where
  find_where-update_any q p f [] a same h = cc
  find_where-update_any q p f (x ∷ xs) a same h =
      ground (arith, same x, find_where-update_any q p f xs a same)

  -- The row of a query that passes another test too is the row of the narrower query.
  pub find_where-narrow :
      (q r : A → Bool) (xs : List A) (a : A)
      → find_where q xs ≡ some a
      → r a ≡ true
      → find_where (λ b. q b && r b) xs ≡ some a
  unfolding find_where
  find_where-narrow q r [] a h k = cc
  find_where-narrow q r (x ∷ xs) a h k = ground (arith, find_where-narrow q r xs a)

  -- An update that makes no row newly pass `q` adds nothing to the rows that pass it.
  pub count_where-update_le :
      (q p : A → Bool) (f : A → A) (xs : List A)
      → ((b : A) → q (f b) ≡ true → q b ≡ true)
      → count_where q (update_where p f xs) ≤ count_where q xs
  unfolding count_where update_where
  count_where-update_le q p f [] h = omega arith
  count_where-update_le q p f (x ∷ xs) h = ground (arith, h x, count_where-update_le q p f xs h)

  pub count_where-update_eq :
      (q p : A → Bool) (f : A → A) (xs : List A)
      → ((b : A) → p b ≡ true → q (f b) ≡ q b)
      → count_where q (update_where p f xs) ≡ count_where q xs
  unfolding count_where update_where
  count_where-update_eq q p f [] h = refl
  count_where-update_eq q p f (x ∷ xs) h = ground (arith, h x, count_where-update_eq q p f xs h)

  -- Where an update turns off every row that it touches, and it touches the first that passed.
  pub count_where-update_lt :
      (q p : A → Bool) (f : A → A) (xs : List A) (a : A)
      → ((b : A) → q (f b) ≡ false)
      → find_where q xs ≡ some a
      → p a ≡ true
      → suc (count_where q (update_where p f xs)) ≤ count_where q xs
  unfolding count_where update_where find_where
  count_where-update_lt q p f [] a off h t = cc
  count_where-update_lt q p f (x ∷ xs) a off h t = ground (
    arith,
    off x,
    count_where-update_lt q p f xs a off,
    count_where-update_le q p f xs (λ b e. absurd (ground (arith, off b))),
  )

  pub any-count : (p : A → Bool) (xs : List A) → count_where p xs ≡ 0 → any p xs ≡ false
  unfolding count_where
  any-count p [] h = refl
  any-count p (x ∷ xs) h = ground (arith, any-count p xs)

  pub count-any : (p : A → Bool) (xs : List A) → any p xs ≡ false → count_where p xs ≡ 0
  unfolding count_where
  count-any p [] h = refl
  count-any p (x ∷ xs) h = ground (arith, count-any p xs)

  -- What an update does not touch, a filter that sees none of its rows does not see either.
  pub keep-update_where :
      (q p : A → Bool) (f : A → A) (xs : List A)
      → ((b : A) → p b ≡ true → q b ≡ false)
      → ((b : A) → p b ≡ true → q (f b) ≡ false)
      → keep q (update_where p f xs) ≡ keep q xs
  unfolding update_where
  keep-update_where q p f [] apart apart' = refl
  keep-update_where q p f (x ∷ xs) apart apart' =
      ground (arith, apart x, apart' x, keep-update_where q p f xs apart apart')

  pub find_where-count :
      (p : A → Bool) (xs : List A) (a : A) → find_where p xs ≡ some a → 1 ≤ count_where p xs
  unfolding count_where find_where
  find_where-count p [] a h = cc
  find_where-count p (x ∷ xs) a h = ground (arith, find_where-count p xs a)
