-- ===== src/Base/Members.antt =====
-- The members of a list that is filtered, mapped or searched.
use itcenter.Base.{
  ◌≡◌, refl, ap, ◌∙◌, subst, inl, inr, Bool, true, false, some, List, [], ◌∷◌, map, arith,
  if◌then◌else◌, Bool-cases, any, every, keep, find_where,
}
use mathlib.Core.List.{Memᴰ}

-- A member of a filtered list is one of the whole list, and passes the test.
pub keep-Memᴰ :
    {A : Type 0} (p : A → Bool) (xs : List A) {a : A}
    → Memᴰ a (keep p xs)
    → Memᴰ a xs × (p a ≡ true)
keep-Memᴰ p [] m = elim m [ ]
keep-Memᴰ {A} p (x ∷ xs) {a} m = elim (Bool-cases (p x)) [
  | inl e ↦
      kept (keep-Memᴰ p xs) e
        (subst (λ (b : Bool). Memᴰ a (if b then x ∷ keep p xs else keep p xs)) e m)
  | inr e ↦
      let (n, h) =
        keep-Memᴰ p xs
          (subst (λ (b : Bool). Memᴰ a (if b then x ∷ keep p xs else keep p xs)) e m) in
      (Memᴰ.tail n, h)
]
  where
    kept :
        (Memᴰ a (keep p xs) → Memᴰ a xs × (p a ≡ true))
        → p x ≡ true
        → Memᴰ a (x ∷ keep p xs)
        → Memᴰ a (x ∷ xs) × (p a ≡ true)
    kept ih e (Memᴰ.head h) = (Memᴰ.head h, ap p h ∙ e)
    kept ih e (Memᴰ.tail n) = (Memᴰ.tail (ih n).0, (ih n).1)

pub every-Memᴰ :
    {A : Type 0} (p : A → Bool) (xs : List A) {a : A} → every p xs ≡ true → Memᴰ a xs → p a ≡ true
every-Memᴰ p [] h m = elim m [ ]
every-Memᴰ p (x ∷ xs) h (Memᴰ.head e) = ground arith
every-Memᴰ p (x ∷ xs) h (Memᴰ.tail m) = every-Memᴰ p xs (ground arith) m

pub find_where-Memᴰ :
    {A : Type 0} (p : A → Bool) (xs : List A) {a : A} → find_where p xs ≡ some a → Memᴰ a xs
unfolding find_where
find_where-Memᴰ p [] h = cc
find_where-Memᴰ p (x ∷ xs) h = elim (Bool-cases (p x)) [
  | inl e ↦ Memᴰ.head (ground arith)
  | inr e ↦ Memᴰ.tail (find_where-Memᴰ p xs (ground arith))
]

pub map-Memᴰ :
    {A B : Type 0} (f : A → B) (xs : List A) {b : B}
    → Memᴰ b (map f xs)
    → (a : A) × Memᴰ a xs × (b ≡ f a)
map-Memᴰ f [] m = elim m [ ]
map-Memᴰ f (x ∷ xs) (Memᴰ.head e) = (x, Memᴰ.head refl, e)
map-Memᴰ f (x ∷ xs) (Memᴰ.tail m) = let (a, n, e) = map-Memᴰ f xs m in (a, Memᴰ.tail n, e)

pub any-Memᴰ :
    {A : Type 0} (p : A → Bool) (xs : List A) → any p xs ≡ true → (a : A) × Memᴰ a xs × (p a ≡ true)
any-Memᴰ p [] h = cc
any-Memᴰ p (x ∷ xs) h = elim (Bool-cases (p x)) [
  | inl e ↦ (x, Memᴰ.head refl, e)
  | inr e ↦ let (a, m, k) = any-Memᴰ p xs (ground arith) in (a, Memᴰ.tail m, k)
]

pub Memᴰ-any :
    {A : Type 0} (p : A → Bool) (xs : List A) {a : A} → Memᴰ a xs → p a ≡ true → any p xs ≡ true
Memᴰ-any p [] m h = elim m [ ]
Memᴰ-any p (x ∷ xs) (Memᴰ.head e) h = ground (arith, ap p e)
Memᴰ-any p (x ∷ xs) (Memᴰ.tail m) h = ground (arith, Memᴰ-any p xs m h)

pub Memᴰ-keep :
    {A : Type 0} (p : A → Bool) (xs : List A) {a : A} → Memᴰ a xs → p a ≡ true → Memᴰ a (keep p xs)
Memᴰ-keep p [] m h = elim m [ ]
Memᴰ-keep p (x ∷ xs) (Memᴰ.head e) h = rw (← e, h) (Memᴰ.head refl)
Memᴰ-keep {A} p (x ∷ xs) {a} (Memᴰ.tail m) h = skips (p x) (Memᴰ-keep p xs m h)
  where
    skips : (b : Bool) → Memᴰ a (keep p xs) → Memᴰ a (if b then x ∷ keep p xs else keep p xs)
    skips true n = Memᴰ.tail n
    skips false n = n

pub find_where-some :
    {A : Type 0} (p : A → Bool) (xs : List A) {a : A}
    → Memᴰ a xs
    → p a ≡ true
    → (b : A) × (find_where p xs ≡ some b)
unfolding find_where
find_where-some p [] m h = elim m [ ]
find_where-some p (x ∷ xs) (Memᴰ.head e) h = (x, ground (arith, ap p e))
find_where-some p (x ∷ xs) (Memᴰ.tail m) h = elim (Bool-cases (p x)) [
  | inl e ↦ (x, ground arith)
  | inr e ↦ let (b, k) = find_where-some p xs m h in (b, ground arith)
]
