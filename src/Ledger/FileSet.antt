-- ===== src/Ledger/FileSet.antt =====
-- The hash of a set of files: equivalent/ledger/subjects.py, `_normalize_path` and `hash_files`.
-- Paths are lists of code points, contents are bytes. The SHA-256 function is hashlib's, so what
-- is modelled is the byte stream that it is given.
pub mod Framing
pub mod Order
use skateboard.Prelude.{
  ℕ, ◌/◌, ◌%◌, ◌^◌, ◌+◌, List, [], ◌∷◌, ◌++◌, map, length, if◌then◌else◌, Bool, true, false, Eq,
  ◌==◌, ◌&&◌, distinct, ◌↔◌, ◌≡◌, arith, ltb, nat_beq, nat_beq_iff, string_eq, String,
}
use skateboard.Prelude.Text.{codes, text_leb}
use skateboard.Prelude.Sorting.{sort_by}
use skateboard.Errors.{Error, value_error, Result, ok, raise}

abbrev pub text_beq : List ℕ → List ℕ → Bool
text_beq [] [] = true
text_beq (x ∷ xs) (y ∷ ys) = let rest = text_beq xs ys in nat_beq x y && rest
text_beq _ _ = false

pub text_beq_iff : (a b : List ℕ) → (text_beq a b ≡ true) ↔ (a ≡ b)
text_beq_iff [] [] = (λ h. ground arith, λ h. ground arith)
text_beq_iff [] (y ∷ ys) = (λ h. ground arith, λ h. ground arith)
text_beq_iff (x ∷ xs) [] = (λ h. ground arith, λ h. ground arith)
text_beq_iff (x ∷ xs) (y ∷ ys) =
    let ih = text_beq_iff xs ys in (λ h. ground (arith, ih), λ h. ground (arith, ih))

instance abbrev pub text_eq : Eq (List ℕ)
text_eq = record { beq = text_beq; beq_iff = text_beq_iff }

pub record File : Type 0 where
  pub path : List ℕ
  pub content : List ℕ

-- `path.replace("\\", "/")`
unfoldable pub replace_backslash : List ℕ → List ℕ
replace_backslash = map (λ c. if nat_beq c b'\\' then b'/' else c)

-- `while path.startswith("./"): path = path[2:]`
unfoldable pub strip_dot_slash : List ℕ → List ℕ
strip_dot_slash [] = []
strip_dot_slash (c ∷ []) = c ∷ []
strip_dot_slash (c ∷ d ∷ rest) =
    let stripped = strip_dot_slash rest in
    if nat_beq c b'.' && nat_beq d b'/' then stripped else c ∷ d ∷ rest

-- `_normalize_path`
unfoldable pub normalize_path : List ℕ → List ℕ
unfolding replace_backslash strip_dot_slash
normalize_path path = strip_dot_slash (replace_backslash path)

-- `str.encode("utf-8")` of one code point. A lone surrogate, which Python refuses, is not text.
unfoldable pub encode_char : ℕ → List ℕ
encode_char c =
    if ltb c 0x80
    then c ∷ []
    else if ltb c 0x800
    then (0xc0 + c / 64) ∷ (0x80 + c % 64) ∷ []
    else if ltb c 0x1_0000
    then (0xe0 + c / 4096) ∷ (0x80 + c / 64 % 64) ∷ (0x80 + c % 64) ∷ []
    else (0xf0 + c / 26_2144) ∷ (0x80 + c / 4096 % 64) ∷ (0x80 + c / 64 % 64) ∷ (0x80 + c % 64) ∷ []

unfoldable pub encode : List ℕ → List ℕ
unfolding encode_char
encode [] = []
encode (c ∷ cs) = encode_char c ++ encode cs

-- `struct.pack(">Q", n)`: eight bytes, the highest first.
unfoldable pub pack_q : ℕ → List ℕ
pack_q n =
    (n / 2 ^ 56 % 256)
    ∷ (n / 2 ^ 48 % 256)
    ∷ (n / 2 ^ 40 % 256)
    ∷ (n / 2 ^ 32 % 256)
    ∷ (n / 2 ^ 24 % 256)
    ∷ (n / 2 ^ 16 % 256)
    ∷ (n / 2 ^ 8 % 256)
    ∷ (n % 256)
    ∷ []

-- `b"equivalent:file-set:v2\0"`
abbrev pub file_set_prefix : List ℕ
file_set_prefix = codes "equivalent:file-set:v2" ++ 0 ∷ []

-- One round of the loop: the length-delimited path and content.
unfoldable pub frame : File → List ℕ
unfolding pack_q encode
frame f =
    pack_q (length (encode f.path)) ++ (encode f.path ++ (pack_q (length f.content) ++ f.content))

unfoldable pub frames : List File → List ℕ
unfolding frame
frames [] = []
frames (f ∷ fs) = frame f ++ frames fs

abbrev path_le : File → File → Bool
path_le f g = text_leb f.path g.path

unfoldable pub normalized : List File → List File
unfolding normalize_path
normalized = map (λ f. record { path = normalize_path f.path; content = f.content })

-- What `h.update` is given for the files, in order.
unfoldable pub stream : List File → List ℕ
unfolding frames pack_q
stream fs = file_set_prefix ++ (pack_q (length fs) ++ frames fs)

-- `hash_files`, before the digest is taken.
unfoldable pub hash_files : List File → Result (List ℕ)
unfolding normalized stream sort_by text_leb
hash_files files =
    if distinct (map (λ f. f.path) (normalized files))
    then ok (stream (sort_by path_le (normalized files)))
    else raise (value_error "duplicate normalized paths")
