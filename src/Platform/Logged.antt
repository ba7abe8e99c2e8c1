-- ===== src/Platform/Logged.antt =====
-- A table with the rows of a log on each of its rows, by tenant and id, as commands insert and update them.
use itcenter.Base.{
  ℕ, ◌≡◌, refl, subst, inl, inr, Bool, true, false, Option, none, some, List, [], ◌∷◌, ◌++◌, arith,
  ◌==◌, eq_of_==, Bool-cases, any, every, keep, find_where, update_where, find_where-update_where,
  find_where-update_other,
}
use itcenter.Platform.Tx.{row_is}

-- A row that has one key has no other.
pub row_is-apart :
    (t i t' i' t'' i'' : ℕ)
    → row_is t i t' i' ≡ false
    → row_is t' i' t'' i'' ≡ true
    → row_is t i t'' i'' ≡ false
row_is-apart t i t' i' t'' i'' h k =
    rw (eq_of_== t'' t' (ground arith), eq_of_== i'' i' (ground arith)) h

module _ {A L : Type 0} (tenant_of id_of : A → ℕ) (log_tenant log_row : L → ℕ) where
  abbrev pub at : ℕ → ℕ → A → Bool
  at tenant id a = row_is tenant id (tenant_of a) (id_of a)

  abbrev pub on : ℕ → ℕ → L → Bool
  on tenant id l = row_is tenant id (log_tenant l) (log_row l)

  find_where-fresh :
      (tenant id : ℕ) (rows : List A)
      → any (λ a. id_of a == id) rows ≡ false
      → find_where (at tenant id) rows ≡ none
  unfolding find_where
  find_where-fresh tenant id [] h = refl
  find_where-fresh tenant id (a ∷ rows) h = ground (arith, find_where-fresh tenant id rows)

  keep-all :
      (tenant id : ℕ) (new logs : List L)
      → every (on tenant id) new ≡ true
      → keep (on tenant id) (new ++ logs) ≡ new ++ keep (on tenant id) logs
  keep-all tenant id [] logs h = refl
  keep-all tenant id (l ∷ new) logs h = ground (arith, keep-all tenant id new logs)

  keep-none :
      (tenant id tenant' id' : ℕ) (new logs : List L)
      → row_is tenant id tenant' id' ≡ false
      → every (on tenant' id') new ≡ true
      → keep (on tenant id) (new ++ logs) ≡ keep (on tenant id) logs
  keep-none tenant id tenant' id' [] logs a h = refl
  keep-none tenant id tenant' id' (l ∷ new) logs a h = ground (
    arith,
    row_is-apart tenant id tenant' id' (log_tenant l) (log_row l) a,
    keep-none tenant id tenant' id' new logs a,
  )

  module _ (Fits : Option A → List L → Type 0) where
    -- Each row fits its log, and a row that is missing an empty one.
    abbrev pub Logged : List A → List L → Type 0
    Logged rows logs =
        (tenant id : ℕ) → Fits (find_where (at tenant id) rows) (keep (on tenant id) logs)

    -- An insert of a row whose id is new.
    pub insert-Logged :
        (a : A) (new logs : List L) (rows : List A)
        → any (λ b. id_of b == id_of a) rows ≡ false
        → every (on (tenant_of a) (id_of a)) new ≡ true
        → ((ls : List L) → Fits none ls → Fits (some a) (new ++ ls))
        → Logged rows logs
        → Logged (a ∷ rows) (new ++ logs)
    unfolding find_where
    insert-Logged a new logs rows fresh mine fit v tenant id = elim (Bool-cases (at tenant id a)) [
      | inl e ↦
          let same_tenant : tenant_of a ≡ tenant = eq_of_== (tenant_of a) tenant (ground arith) in
          let same_id : id_of a ≡ id = eq_of_== (id_of a) id (ground arith) in
          let none_before = find_where-fresh tenant id rows (rw (← same_id) fresh) in
          rw (e, keep-all tenant id new logs (rw (← same_tenant, ← same_id) mine))
            (fit (keep (on tenant id) logs)
              (subst (λ o. Fits o (keep (on tenant id) logs)) none_before (v tenant id)))
      | inr e ↦ rw (e, keep-none tenant id (tenant_of a) (id_of a) new logs e mine) (v tenant id)
    ]

    -- An update of the row of a key.
    pub update-Logged :
        (tenant' id' : ℕ) (a : A) (f : A → A) (new logs : List L) (rows : List A)
        → find_where (at tenant' id') rows ≡ some a
        → ((b : A) → at tenant' id' b ≡ true → at tenant' id' (f b) ≡ true)
        → every (on tenant' id') new ≡ true
        → ((ls : List L) → Fits (some a) ls → Fits (some (f a)) (new ++ ls))
        → Logged rows logs
        → Logged (update_where (at tenant' id') f rows) (new ++ logs)
    update-Logged tenant' id' a f new logs rows found same mine fit v tenant id =
        elim (Bool-cases (row_is tenant id tenant' id')) [
          | inl e ↦
              let same_tenant : tenant' ≡ tenant = eq_of_== tenant' tenant (ground arith) in
              let same_id : id' ≡ id = eq_of_== id' id (ground arith) in
              let now = find_where-update_where (at tenant' id') f rows a same found in
              rw (← same_tenant, ← same_id, now, keep-all tenant' id' new logs mine)
                (fit (keep (on tenant' id') logs)
                  (subst (λ o. Fits o (keep (on tenant' id') logs)) found (v tenant' id')))
          | inr e ↦
              rw
                (
                  find_where-update_other (at tenant id) (at tenant' id') f rows
                      (λ b k. row_is-apart tenant id tenant' id' (tenant_of b) (id_of b) e k)
                      (λ b k.
                        row_is-apart tenant id tenant' id' (tenant_of (f b)) (id_of (f b)) e
                          (same b k)),
                  keep-none tenant id tenant' id' new logs e mine,
                )
                (v tenant id)
        ]
