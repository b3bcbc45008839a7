-- ===== src/Ledger/FileSet/Framing.antt =====
-- The framing of the byte stream that `hash_files` of equivalent/ledger/subjects.py digests.
use mathlib.Core.List.{append_assoc}
use skateboard.Prelude.{ℕ, ◌<◌, ◌^◌, List, [], ◌∷◌, ◌++◌, length, ◌≡◌, refl, arith, All, sym, ◌∙◌}
use skateboard.Ledger.FileSet.{
  File, encode_char, encode, pack_q, frame, frames, stream, file_set_prefix,
}

-- The lengths fit the eight bytes of their field, and the path is text.
pub record IsFramed (f : File) : Type 0 where
  pub path_length : length (encode f.path) < 2 ^ 64
  pub content_length : length f.content < 2 ^ 64
  pub code_points : All (λ c. c < 0x11_0000) f.path

pack_q_append_injective :
    (m n : ℕ) (xs ys : List ℕ)
    → m < 2 ^ 64
    → n < 2 ^ 64
    → pack_q m ++ xs ≡ pack_q n ++ ys
    → (m ≡ n) × (xs ≡ ys)
unfolding pack_q
pack_q_append_injective m n xs ys hm hn e = ground arith

append_injective :
    (us bs xs ys : List ℕ) → length us ≡ length bs → us ++ xs ≡ bs ++ ys → (us ≡ bs) × (xs ≡ ys)
append_injective [] [] xs ys h e = (refl, e)
append_injective [] (b ∷ bs) xs ys h e = absurd (omega arith)
append_injective (a ∷ us) [] xs ys h e = absurd (omega arith)
append_injective (a ∷ us) (b ∷ bs) xs ys h e = ground (arith, append_injective us bs xs ys)

encode_char_injective :
    (c d : ℕ) (xs ys : List ℕ)
    → c < 0x11_0000
    → d < 0x11_0000
    → encode_char c ++ xs ≡ encode_char d ++ ys
    → (c ≡ d) × (xs ≡ ys)
unfolding encode_char
encode_char_injective c d xs ys hc hd e = ground arith

encode_char-ne-nil : (c : ℕ) (xs : List ℕ) → encode_char c ++ xs ≡ [] → ⊥
unfolding encode_char
encode_char-ne-nil c xs e = ground arith

encode_injective :
    (p q : List ℕ)
    → All (λ c. c < 0x11_0000) p
    → All (λ c. c < 0x11_0000) q
    → encode p ≡ encode q
    → p ≡ q
unfolding encode
encode_injective [] [] hp hq e = refl
encode_injective [] (d ∷ ds) hp hq e = absurd (encode_char-ne-nil d (encode ds) (sym e))
encode_injective (c ∷ cs) [] hp hq e = absurd (encode_char-ne-nil c (encode cs) e)
encode_injective (c ∷ cs) (d ∷ ds) hp hq e =
    let (same, rest) = encode_char_injective c d (encode cs) (encode ds) hp.0 hq.0 e in
    cc (encode_injective cs ds hp.1 hq.1 rest)

frame-append :
    (f : File) (xs : List ℕ)
    → frame f ++ xs
      ≡ pack_q (length (encode f.path))
        ++ (encode f.path ++ (pack_q (length f.content) ++ (f.content ++ xs)))
unfolding frame
frame-append f xs = simp append_assoc

frame_append_injective :
    (f g : File) (xs ys : List ℕ)
    → IsFramed f
    → IsFramed g
    → frame f ++ xs ≡ frame g ++ ys
    → (f ≡ g) × (xs ≡ ys)
frame_append_injective f g xs ys hf hg e =
    let (path_length, e₁) =
      pack_q_append_injective _ _ _ _ hf.path_length hg.path_length
        (sym (frame-append f xs) ∙ e ∙ frame-append g ys) in
    let (path_bytes, e₂) = append_injective _ _ _ _ path_length e₁ in
    let (content_length, e₃) =
      pack_q_append_injective _ _ _ _ hf.content_length hg.content_length e₂ in
    let (content, rest) = append_injective _ _ _ _ content_length e₃ in
    let path = encode_injective f.path g.path hf.code_points hg.code_points path_bytes in
    ((λ i. record { path = path i; content = content i }), rest)

frames_injective :
    (fs gs : List File)
    → All IsFramed fs
    → All IsFramed gs
    → length fs ≡ length gs
    → frames fs ≡ frames gs
    → fs ≡ gs
unfolding frames
frames_injective [] [] hf hg n e = refl
frames_injective [] (g ∷ gs) hf hg n e = absurd (omega arith)
frames_injective (f ∷ fs) [] hf hg n e = absurd (omega arith)
frames_injective (f ∷ fs) (g ∷ gs) hf hg n e =
    let (same, rest) = frame_append_injective f g (frames fs) (frames gs) hf.0 hg.0 e in
    cc (frames_injective fs gs hf.1 hg.1 (omega arith) rest)

-- Two lists of files, each of fewer than 2^64 files whose encoded path and whose content are
-- shorter than 2^64 bytes and whose path holds code points below 0x110000, that give the digest
-- one byte stream are the same list of paths and contents, in the same order.
pub stream_injective :
    (fs gs : List File)
    → All IsFramed fs
    → All IsFramed gs
    → length fs < 2 ^ 64
    → length gs < 2 ^ 64
    → stream fs ≡ stream gs
    → fs ≡ gs
unfolding stream
stream_injective fs gs hf hg nf ng e =
    let (_, e₁) = append_injective file_set_prefix file_set_prefix _ _ refl e in
    let (n, e₂) = pack_q_append_injective _ _ _ _ nf ng e₁ in frames_injective fs gs hf hg n e₂
