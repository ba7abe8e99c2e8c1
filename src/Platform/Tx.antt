-- ===== src/Platform/Tx.antt =====
-- packages/persistence: what a running transaction gives its commands. The tenant is fixed for the
-- transaction, `now` is its `now()` and `Date.now()`, and `uuid` the values that `randomUUID` draws.
use itcenter.Base.{ℕ, Bool, ◌==◌, ◌&&◌}

pub record Tx : Type 0 where
  pub tenant_id : ℕ
  pub now : ℕ
  pub uuid : ℕ → ℕ

-- `WHERE tenant_id=$1 AND id=$2`.
abbrev pub row_is : ℕ → ℕ → ℕ → ℕ → Bool
row_is tenant id row_tenant row_id = row_tenant == tenant && row_id == id

-- Ids are opaque: numbers here, of which 0 stands for a blank text, `!id.trim()`.
abbrev pub is_blank_id : ℕ → Bool
is_blank_id id = id == 0
