-- ===== src/Gateway/Exec.antt =====
-- Code that writes to the ledger and may raise: what was written before a raise stays written.
pub mod Grows
use skateboard.Prelude.{◌≡◌, refl, List, [], ◌∷◌}
use skateboard.Errors.{Error, Result, ok, raise, component_error}
use skateboard.Ledger.Store.{LedgerStore}

abbrev pub Exec : Type 0 → Type 0
Exec A = LedgerStore → Result A × LedgerStore

module _ {A : Type 0} where
  unfoldable pub pure : A → Exec A
  pure a s = (ok a, s)

  -- A result that was reached without writing.
  unfoldable pub lift : Result A → Exec A
  lift r s = (r, s)

  -- A reading of the ledger as it stands.
  unfoldable pub reads : (LedgerStore → Result A) → Exec A
  reads f s = (f s, s)

abbrev pub settle : {A : Type 0} → LedgerStore → Result (A × LedgerStore) → Result A × LedgerStore
settle s (ok (a, s')) = (ok a, s')
settle s (raise e) = (raise e, s)

-- An operation of the store that writes nothing where it raises.
unfoldable pub attempt : {A : Type 0} → (LedgerStore → Result (A × LedgerStore)) → Exec A
attempt f s = settle s (f s)

unfoldable pub write : (LedgerStore → LedgerStore) → Exec (Unit {0})
write f s = (ok tt, f s)

module _ {A B : Type 0} where
  abbrev pub continue : Result A → (A → Exec B) → Exec B
  continue (ok a) f s = f a s
  continue (raise e) f s = (raise e, s)

  infixl 5 ◌>>=◌ ◌>>◌
  unfoldable pub ◌>>=◌ : Exec A → (A → Exec B) → Exec B
  unfolding pure lift reads write attempt
  ◌>>=◌ m f s = let (r, s') = m s in continue r f s'

  abbrev pub ◌>>◌ : Exec A → Exec B → Exec B
  m >> n = m >>= λ _. n
