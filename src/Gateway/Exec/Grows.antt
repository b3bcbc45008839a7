-- ===== src/Gateway/Exec/Grows.antt =====
-- Actions under which the ledger only grows, one rule for each way to build an action.
use skateboard.Prelude.{◌≡◌, refl}
use skateboard.Errors.{Result, ok, raise}
use skateboard.Ledger.Store.{LedgerStore}
use skateboard.Ledger.Store.Growth.{Extends, Extends-refl, Extends-trans}
use skateboard.Gateway.Exec.{Exec, pure, lift, reads, write, attempt, settle, continue, ◌>>=◌}

pub record Grows {A : Type 0} (m : Exec A) : Type 0 where
  pub at : (s : LedgerStore) → Extends s (m s).1

module _ {A : Type 0} where
  pub Grows-pure : (a : A) → Grows (pure a)
  unfolding pure
  Grows-pure a = record { at = Extends-refl }

  pub Grows-lift : (r : Result A) → Grows (lift r)
  unfolding lift
  Grows-lift r = record { at = Extends-refl }

  pub Grows-reads : (f : LedgerStore → Result A) → Grows (reads f)
  unfolding reads
  Grows-reads f = record { at = Extends-refl }

pub Grows-write :
    (f : LedgerStore → LedgerStore) → ((s : LedgerStore) → Extends s (f s)) → Grows (write f)
unfolding write
Grows-write f h = record { at = h }

Grows-settle :
    {A : Type 0} (s : LedgerStore) (r : Result (A × LedgerStore))
    → ((a : A) (s' : LedgerStore) → r ≡ ok (a, s') → Extends s s')
    → Extends s (settle s r).1
Grows-settle s (ok (a, s')) h = h a s' refl
Grows-settle s (raise e) h = Extends-refl s

pub Grows-attempt :
    {A : Type 0} (f : LedgerStore → Result (A × LedgerStore))
    → ((s : LedgerStore) (a : A) (s' : LedgerStore) → f s ≡ ok (a, s') → Extends s s')
    → Grows (attempt f)
unfolding attempt
Grows-attempt f h = record { at = λ s. Grows-settle s (f s) (h s) }

module _ {A B : Type 0} where
  Extends-continue :
      (r : Result A) (f : A → Exec B) (s : LedgerStore)
      → ((a : A) → Grows (f a))
      → Extends s (continue r f s).1
  Extends-continue (ok a) f s k = (k a).at s
  Extends-continue (raise e) f s k = Extends-refl s

  pub Grows-bind :
      (m : Exec A) (f : A → Exec B) → Grows m → ((a : A) → Grows (f a)) → Grows (m >>= f)
  unfolding ◌>>=◌
  Grows-bind m f g k = record {
    at = λ s. let (r, s') = m s in Extends-trans (g.at s) (Extends-continue r f s' k);
  }

pub ruleset grow_rules = (Grows-pure, Grows-lift, Grows-reads, Grows-bind)
