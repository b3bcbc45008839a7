-- ===== src/Oracle/Policy.antt =====
-- `_check_policy` of services/oracle/app.py: before the oracle starts, each output that is compared
-- within a band has one.
pub mod Agrees
use skateboard.Prelude.{
  ℕ, String, Bool, true, false, not, List, [], ◌∷◌, Option, some, none, filter, is_some, elem,
  string_eq, if◌then◌else◌,
}
use skateboard.Errors.{Result, ok, raise, value_error, type_error, ◌>>=◌, ◌>>◌, ensure}
use skateboard.Ledger.Value.{Value, Fields, get, find_key}
use skateboard.Capture.{Variable}
use skateboard.Capture.Tolerance.{Floats, tolerance_problem}

abbrev pub banded_dtypes : List String
banded_dtypes = "f32" ∷ "f64" ∷ []

abbrev pub band_fields : List String
band_fields = "abs" ∷ "rel" ∷ "ulp" ∷ []

-- `[field for field in BAND_FIELDS if field not in band]`
unfoldable pub missing_fields : Fields → List String
unfolding find_key
missing_fields band = filter (λ field. not (is_some (find_key field band))) band_fields

-- A band that is no mapping is refused by one of the three tests, a number by `in` itself.
unfoldable pub band_mapping : Value → Result Fields
band_mapping (Value.obj band) = ok band
band_mapping (Value.bool b) = raise (type_error "band")
band_mapping (Value.int n) = raise (type_error "band")
band_mapping (Value.float s) = raise (type_error "band")
band_mapping _ = raise (value_error "band")

abbrev pub is_empty : List String → Bool
is_empty [] = true
is_empty (x ∷ xs) = false

module _ (f : Floats) where
  unfoldable pub check_band : Value → Result (Unit {0})
  unfolding band_mapping missing_fields tolerance_problem
  check_band value = do
    band ← band_mapping value
    ensure (is_empty (missing_fields band)) (value_error "missing fields")
    ensure (not (is_some (tolerance_problem f (Value.obj band)))) (value_error "invalid band")

  unfoldable pub check_policy : Fields → List Variable → Result (Unit {0})
  unfolding check_band get
  check_policy bands [] = ok tt
  check_policy bands (variable ∷ rest) =
      (if elem variable.dtype banded_dtypes then check_band (get variable.name bands) else ok tt)
      >> check_policy bands rest
