-- ===== src/Prelude/Table.antt =====
-- src/db/repositories/base.repository.ts: a table is a list of rows, the newest first, and `key`
-- reads a row's primary key. The row that an insert returns is the one given, since the keys and
-- the times that the database fills in are arguments of the operations.
pub mod Laws
use mathlib.Core.Bool.{Bool}
use mathlib.Core.List.{List, [], ◌∷◌}
use mathlib.Core.Option.{Option, none, some}
use Prim.Native.Nat.{ℕ}
use radha_backend.Prelude.Tests.{◌==◌, if◌then◌else◌}
use radha_backend.Prelude.Lists.{find}
use radha_backend.Prelude.Failures.{Result, ok, err, not_found}

module _ {ℓ} {A : Type ℓ} where
  -- `UPDATE … SET … WHERE test`
  abbrev pub update_where : (A → Bool) → (A → A) → List A → List A
  update_where p f [] = []
  update_where p f (r ∷ rows) = (if p r then f r else r) ∷ update_where p f rows

  -- `create`
  abbrev pub create : A → List A → List A
  create r rows = r ∷ rows

module _ {ℓ} {A : Type ℓ} (key : A → ℕ) where
  abbrev pub has_id : ℕ → A → Bool
  has_id id r = key r == id

  -- `findById`, on a table with no soft delete
  abbrev pub find_by_id : ℕ → List A → Option A
  find_by_id id = find (has_id id)

  abbrev pub returned : List A → Option A → Result (List A × A)
  returned rows none = err not_found
  returned rows (some r) = ok (rows, r)

  -- `update`: the row with the key is patched and returned, and a missing row is an error
  unfoldable pub update : ℕ → (A → A) → List A → Result (List A × A)
  update id f rows =
      let rows' = update_where (has_id id) f rows in returned rows' (find_by_id id rows')
