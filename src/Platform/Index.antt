-- ===== src/Platform/Index.antt =====
-- A partial unique index of the database: at most one live row for each tenant and key. An insert is
-- refused where the index has an entry already (error 23505).
use itcenter.Base.{
  ℕ, ◌≤◌, ◌≡◌, Bool, true, ◌&&◌, List, ◌∷◌, arith, count_where, update_where, any, count-any,
  count_where-update_le, eq_of_==,
}
use itcenter.Platform.Errors.{ErrorCode, Result, ok, ◌>>◌, throw_if}
use itcenter.Platform.Tx.{row_is}

unfoldable pub insert_unique {ℓ} :
    {A : Type ℓ} → (A → Bool) → ErrorCode → A → List A → Result (List A)
insert_unique taken code row rows = do throw_if (any taken rows) code; ok (row ∷ rows)

module _ {A : Type 0} (tenant_of key_of : A → ℕ) (live : A → Bool) where
  abbrev pub entry : ℕ → ℕ → A → Bool
  entry tenant key a = row_is tenant key (tenant_of a) (key_of a) && live a

  abbrev pub IsUnique : List A → Type 0
  IsUnique rows = (tenant key : ℕ) → count_where (entry tenant key) rows ≤ 1

  pub insert-IsUnique :
      (code : ErrorCode) (row : A) (rows rows' : List A)
      → IsUnique rows
      → insert_unique (entry (tenant_of row) (key_of row)) code row rows ≡ ok rows'
      → IsUnique rows'
  unfolding insert_unique count_where throw_if
  insert-IsUnique code row rows rows' u h tenant key = ground (
    arith,
    u tenant key,
    count-any (entry (tenant_of row) (key_of row)) rows,
    eq_of_== (tenant_of row) tenant,
    eq_of_== (key_of row) key,
  )

  pub update-IsUnique :
      (p : A → Bool) (f : A → A) (rows : List A)
      → ((b : A) → tenant_of (f b) ≡ tenant_of b)
      → ((b : A) → key_of (f b) ≡ key_of b)
      → ((b : A) → live (f b) ≡ true → live b ≡ true)
      → IsUnique rows
      → IsUnique (update_where p f rows)
  update-IsUnique p f rows same_tenant same_key dies u tenant key = omega (
    arith,
    u tenant key,
    count_where-update_le (entry tenant key) p f rows
        (λ b e. ground (arith, same_tenant b, same_key b, dies b)),
  )
