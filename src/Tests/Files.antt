-- ===== src/Tests/Files.antt =====
-- The byte streams of two files, and the settings of a request.
use mathlib.Core.List.{Permᴰ}
use skateboard.Prelude.{
  String, ◌≡◌, refl, arith, All, [], ◌∷◌, In, elem, string_eq, none, true, ◌↔◌,
}
use skateboard.Errors.{ok}
use skateboard.Ledger.Value.{Value, pos}
use skateboard.Ledger.Table.Config.{Config, check_config}
use skateboard.Ledger.Table.Config.Bounds.{IsWithin, check_config-IsWithin}
use skateboard.Tests.Fixtures.{a_row}
use skateboard.Ledger.FileSet.{File, encode, stream, hash_files}
use skateboard.Ledger.FileSet.Framing.{IsFramed, stream_injective}
use skateboard.Ledger.FileSet.Order.{hash_files-perm}

abbrev file_a : File
file_a = record { path = b'a' ∷ []; content = 1 ∷ 2 ∷ [] }

abbrev file_b : File
file_b = record { path = b'.' ∷ b'/' ∷ b'b' ∷ []; content = [] }

files-IsFramed : All IsFramed (file_a ∷ file_b ∷ [])
unfolding encode
files-IsFramed = (
  record {
    path_length = omega arith;
    content_length = omega arith;
    code_points = (omega arith, tt);
  },
  (
    record {
      path_length = omega arith;
      content_length = omega arith;
      code_points = (omega arith, (omega arith, (omega arith, tt)));
    },
    tt,
  ),
)

stream_injective_example : file_a ∷ file_b ∷ [] ≡ file_a ∷ file_b ∷ []
unfolding stream
stream_injective_example =
    stream_injective (file_a ∷ file_b ∷ []) (file_a ∷ file_b ∷ []) files-IsFramed files-IsFramed
      (omega arith) (omega arith) refl

hash_files-perm_example : hash_files (file_a ∷ file_b ∷ []) ≡ hash_files (file_b ∷ file_a ∷ [])
hash_files-perm_example =
    hash_files-perm (file_a ∷ file_b ∷ []) (file_b ∷ file_a ∷ []) ∣ Permᴰ.swap refl refl ∣₁

-- `check_config` on one setting in its bounds.
abbrev a_config : Config
a_config = ("repeats", Value.int (pos 5)) ∷ []

check_config-IsWithin_example : (check_config a_row a_config ≡ ok none) ↔ (
    (key : String) (value : Value)
    → In (key, value) a_config
    → (elem key a_row.config_keys ≡ true) × IsWithin key value)
check_config-IsWithin_example = check_config-IsWithin a_row a_config

-- The left side holds.
check_config_passes : check_config a_row a_config ≡ ok none
unfolding check_config
check_config_passes = refl
