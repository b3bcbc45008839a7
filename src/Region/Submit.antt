-- ===== src/Region/Submit.antt =====
-- `submit` of equivalent/gateway/submit.py, up to the commit: the allowed files of the working copy
-- are laid over the baseline. A tree is a dictionary of paths, in the order Python keeps it.
pub mod Frozen
use skateboard.Prelude.{
  ℕ, Bool, true, false, ◌&&◌, not, List, [], ◌∷◌, ◌++◌, map, filter, is_some, lookup, put,
}
use skateboard.Prelude.Text.{text_leb}
use skateboard.Prelude.Sorting.{sort_by}
use skateboard.Errors.{Result, ok, raise, ◌>>=◌}
use skateboard.Ledger.FileSet.{File, hash_files, text_eq}
use skateboard.Region.Glob.{Text, matches_any}

abbrev pub Files : Type 0
Files = List (Text × List ℕ)

-- `{**base, **over}`
unfoldable pub merge : Files → Files → Files
merge base [] = base
merge base ((path, raw) ∷ over) = merge (put path raw base) over

abbrev pub has_path : Text → Files → Bool
has_path path files = is_some (lookup path files)

-- `[{"path": p, "content": c} for p, c in files.items()]`
abbrev pub file_list : Files → List File
file_list = map (λ f. record { path = f.0; content = f.1 })

-- The receipt; the two hashes are of these byte streams.
pub record Submission : Type 0 where
  pub constructed : Files
  pub tree : Result (List ℕ)
  pub frozen : Result (List ℕ)
  pub rejected : List Text
  pub not_sent : List Text

module _ (fnmatchcase : Text → Text → Bool) (lower : Text → Text) where
  abbrev pub allowed : List Text → Text × List ℕ → Bool
  allowed globs f = matches_any fnmatchcase lower f.0 globs

  unfoldable pub applied : List Text → Files → Files
  unfolding matches_any
  applied globs working = filter (allowed globs) working

  unfoldable pub frozen_files : List Text → Files → Files
  unfolding matches_any
  frozen_files globs files = filter (λ f. not (allowed globs f)) files

  unfoldable pub submit : Files → Files → List Text → Submission
  unfolding applied frozen_files merge hash_files sort_by text_leb
  submit baseline working globs =
      let constructed = merge baseline (applied globs working) in
      record {
        constructed = constructed;
        tree = hash_files (file_list constructed);
        frozen = hash_files (file_list (frozen_files globs baseline));
        rejected = map (λ f. f.0) (frozen_files globs working);
        not_sent =
            sort_by text_leb (
              map (λ f. f.0)
                (filter (λ f. allowed globs f && not (has_path f.0 working)) baseline));
      }
