-- ===== src/Region/Glob.antt =====
-- The one rule for patterns: `glob_matches` of equivalent/ledger/subjects.py, and its readers
-- `matches_any` (equivalent/region/current.py), `Strategy.allows` and `rejected_paths`
-- (equivalent/strategy/schema.py), and `source_files` (equivalent/manifest/schema.py).
-- `fnmatchcase` and `str.lower` are the standard library's.
use skateboard.Prelude.{
  ℕ, Bool, false, ◌||◌, not, List, [], ◌∷◌, nat_beq, if◌then◌else◌, any, filter,
}
use skateboard.Ledger.FileSet.{normalize_path}

abbrev pub Text : Type 0
Text = List ℕ

-- `pattern[3:]` where the pattern starts with "**/".
unfoldable pub any_depth : Text → Bool
any_depth (a ∷ b ∷ c ∷ rest) =
    if nat_beq a b'*' then (if nat_beq b b'*' then nat_beq c b'/' else false) else false
any_depth _ = false

abbrev after_three : Text → Text
after_three (a ∷ b ∷ c ∷ rest) = rest
after_three _ = []

-- `fnmatch.fnmatchcase(name, pattern)` and `str.lower`
module _ (fnmatchcase : Text → Text → Bool) (lower : Text → Text) where
  unfoldable pub glob_matches : Text → Text → Bool
  unfolding any_depth normalize_path
  glob_matches path pattern =
      let lowered = lower (normalize_path path) in
      let pat = lower pattern in
      if any_depth pat
      then (fnmatchcase lowered (after_three pat)
          || fnmatchcase lowered (b'*' ∷ b'/' ∷ after_three pat))
      else fnmatchcase lowered pat

  unfoldable pub matches_any : Text → List Text → Bool
  unfolding glob_matches
  matches_any path globs = any (glob_matches path) globs

  -- `Strategy.allows`, of the strategy's `allow_globs`
  unfoldable pub allows : List Text → Text → Bool
  unfolding glob_matches
  allows allow_globs path = any (glob_matches path) allow_globs

  unfoldable pub rejected_paths : List Text → List Text → List Text
  unfolding allows
  rejected_paths allow_globs paths = filter (λ p. not (allows allow_globs p)) paths

  unfoldable pub source_files : List Text → List Text → List Text
  unfolding glob_matches
  source_files patterns paths = filter (λ p. any (glob_matches p) patterns) paths
