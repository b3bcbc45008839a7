-- ===== src/Ledger/FileSet/Order.antt =====
-- `hash_files` of equivalent/ledger/subjects.py and the order in which the files are listed.
use mathlib.Core.List.{Perm, Permᴰ}
use mathlib.Core.HLevel.{prop→set}
use mathlib.Core.Logic.{∥∥₁_elim}
use text.Mathlib.TextEquality.{IsScalar-prop}
use skateboard.Prelude.{
  ℕ, List, [], ◌∷◌, map, ◌≡◌, refl, ap, sym, ◌∙◌, arith, true, false, elem, distinct, Bool-cases,
  bool_eq_of_iff, inl, inr,
}
use skateboard.Prelude.Text.{text_leb-total, text_leb_antisymm, text_leb_trans}
use skateboard.Prelude.Sorting.{sort_by, insert_by}
use skateboard.Errors.{Result, ok}
use skateboard.Ledger.FileSet.{
  File, normalized, hash_files, stream, path_le, text_beq, text_beq_iff, text_eq, normalize_path,
}

abbrev paths : List File → List (List ℕ)
paths = map (λ f. f.path)

-- Two files of different paths go into a sorted list in either order.
insert_by_comm :
    (f g : File) (s : List File)
    → text_beq f.path g.path ≡ false
    → insert_by path_le f (insert_by path_le g s) ≡ insert_by path_le g (insert_by path_le f s)
insert_by_comm f g [] ne = ground (
  arith,
  text_leb-total f.path g.path,
  text_leb_antisymm f.path g.path,
  text_beq_iff f.path g.path,
)
insert_by_comm f g (h ∷ hs) ne = ground (
  arith,
  text_leb-total f.path g.path,
  text_leb-total g.path f.path,
  text_leb-total f.path h.path,
  text_leb-total g.path h.path,
  text_leb_antisymm f.path g.path,
  text_leb_trans f.path g.path h.path,
  text_leb_trans g.path f.path h.path,
  text_beq_iff f.path g.path,
  insert_by_comm f g hs ne,
)

elem-perm : (p : List ℕ) {fs gs : List File} → Permᴰ fs gs → elem p (paths fs) ≡ elem p (paths gs)
elem-perm p Permᴰ.nil = refl
elem-perm p (Permᴰ.cons e r) = rw (e, elem-perm p r)
elem-perm p (Permᴰ.swap e e') = rw (e, e') (ground arith)
elem-perm p (Permᴰ.trans r r') = elem-perm p r ∙ elem-perm p r'

text_beq_comm : (p q : List ℕ) → text_beq p q ≡ text_beq q p
text_beq_comm p q =
    bool_eq_of_iff _ _ (λ h. (text_beq_iff q p).1 (sym ((text_beq_iff p q).0 h)))
      (λ h. (text_beq_iff p q).1 (sym ((text_beq_iff q p).0 h)))

distinct_swap :
    (f g : File) (l : List File) → distinct (paths (f ∷ g ∷ l)) ≡ distinct (paths (g ∷ f ∷ l))
distinct_swap f g l = ground (arith, text_beq_comm f.path g.path)

distinct-perm : {fs gs : List File} → Permᴰ fs gs → distinct (paths fs) ≡ distinct (paths gs)
distinct-perm Permᴰ.nil = refl
distinct-perm (Permᴰ.cons {a = f} {b = g} e r) = rw (e, elem-perm g.path r, distinct-perm r)
distinct-perm (Permᴰ.swap {a = f} {b = g} {a' = f'} {b' = g'} {l} e e') =
    distinct_swap f g l ∙ (λ i. distinct (paths (e' i ∷ e i ∷ l)))
distinct-perm (Permᴰ.trans r r') = distinct-perm r ∙ distinct-perm r'

distinct-apart :
    (f g : File) (l : List File)
    → distinct (paths (f ∷ g ∷ l)) ≡ true
    → text_beq f.path g.path ≡ false
distinct-apart f g l d = ground arith

sort_by-perm :
    {fs gs : List File}
    → Permᴰ fs gs
    → distinct (paths fs) ≡ true
    → sort_by path_le fs ≡ sort_by path_le gs
unfolding sort_by
sort_by-perm Permᴰ.nil d = refl
sort_by-perm (Permᴰ.cons e r) d = rw (e, sort_by-perm r (ground arith))
sort_by-perm (Permᴰ.swap {a = f} {b = g} {a' = f'} {b' = g'} {l} e e') d =
    insert_by_comm f g (sort_by path_le l) (distinct-apart f g l d)
    ∙ (λ i. insert_by path_le (e' i) (insert_by path_le (e i) (sort_by path_le l)))
sort_by-perm (Permᴰ.trans r r') d = sort_by-perm r d ∙ sort_by-perm r' (sym (distinct-perm r) ∙ d)

normalized-perm : {fs gs : List File} → Permᴰ fs gs → Permᴰ (normalized fs) (normalized gs)
unfolding normalized
normalized-perm Permᴰ.nil = Permᴰ.nil
normalized-perm (Permᴰ.cons e r) =
    Permᴰ.cons (ap (λ (f : File). record { path = normalize_path f.path; content = f.content }) e)
      (normalized-perm r)
normalized-perm (Permᴰ.swap e e') =
    Permᴰ.swap (ap (λ (f : File). record { path = normalize_path f.path; content = f.content }) e)
      (ap (λ (f : File). record { path = normalize_path f.path; content = f.content }) e')
normalized-perm (Permᴰ.trans r r') = Permᴰ.trans (normalized-perm r) (normalized-perm r')

hash_files-permᴰ : {fs gs : List File} → Permᴰ fs gs → hash_files fs ≡ hash_files gs
unfolding hash_files
hash_files-permᴰ {fs} {gs} r =
    let same = distinct-perm (normalized-perm r) in
    elim (Bool-cases (distinct (paths (normalized fs)))) [
      | inl d ↦ rw (d, sym same ∙ d) (ap (λ l. ok (stream l)) (sort_by-perm (normalized-perm r) d))
      | inr d ↦ rw (d, sym same ∙ d)
    ]

bytes_set : IsSet (Result (List ℕ))
bytes_set = hlevel (λ (n : ℕ). prop→set (IsScalar-prop n))

-- `hash_files` gives the same byte stream, or raises the same error, for any two listings of the
-- same files: the order of the argument does not matter.
pub hash_files-perm : (fs gs : List File) → Perm fs gs → hash_files fs ≡ hash_files gs
hash_files-perm fs gs p = ∥∥₁_elim p (bytes_set _ _) hash_files-permᴰ
