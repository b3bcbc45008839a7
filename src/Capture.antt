-- ===== src/Capture.antt =====
-- Captured arrays and how they are compared. Here: `Variable` of equivalent/capture/variables.py,
-- and the arrays, as the type, the shape and the bit patterns that an NPY file holds, with `check`
-- of equivalent/capture/npy.py.
pub mod Ulp
pub mod Tolerance
pub mod Compare
pub mod Cases
use skateboard.Prelude.{
  ℕ, String, ◌&&◌, Bool, true, false, List, [], ◌∷◌, length, ◌==◌, string_eq, nat_eq, if◌then◌else◌,
  nat_beq, not,
}
use skateboard.Errors.{Result, ok, raise, value_error, key_error, ◌>>=◌, ◌>>◌, ensure}

-- `dtypes`, in the order of the source
abbrev pub dtypes : List String
dtypes = "f32" ∷ "f64" ∷ "i32" ∷ "i64" ∷ "l" ∷ []

abbrev pub max_rank : ℕ
max_rank = 4

pub record Variable : Type 0 where
  pub name : String
  pub dtype : String
  pub rank : ℕ

-- `dtype.kind`, `dtype.itemsize` and `dtype.str`
pub record Dtype : Type 0 where
  pub kind : String
  pub itemsize : ℕ
  pub str : String

-- The elements are in the order of the file, column-major, as bit patterns of the type's width.
pub record Array : Type 0 where
  pub shape : List ℕ
  pub dtype : Dtype
  pub elements : List ℕ

unfoldable pub numpy_dtype : String → Result Dtype
numpy_dtype name =
    if name == "f32"
    then ok (record { kind = "f"; itemsize = 4; str = "<f4" })
    else if name == "f64"
    then ok (record { kind = "f"; itemsize = 8; str = "<f8" })
    else if name == "i32"
    then ok (record { kind = "i"; itemsize = 4; str = "<i4" })
    else if name == "i64"
    then ok (record { kind = "i"; itemsize = 8; str = "<i8" })
    else if name == "l"
    then ok (record { kind = "b"; itemsize = 1; str = "|b1" })
    else raise (key_error "dtype")

abbrev pub same_dtype : Dtype → Dtype → Bool
same_dtype a b = a.kind == b.kind && (a.itemsize == b.itemsize && a.str == b.str)

-- `check`
unfoldable pub check : Array → Variable → Result (Unit {0})
unfolding numpy_dtype
check array variable = do
  expected ← numpy_dtype variable.dtype
  ensure (same_dtype array.dtype expected) (value_error "array type")
  ensure (nat_beq (length array.shape) variable.rank) (value_error "array rank")
