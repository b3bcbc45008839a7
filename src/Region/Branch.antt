-- ===== src/Region/Branch.antt =====
-- The commit of a submit: `_commit_tree_if_changed` of equivalent/gateway/submit.py, in the two
-- halves between which another process may move the branch. Git is a parameter, with what its
-- commands are documented to do as laws.
pub mod History
use skateboard.Prelude.{
  ℕ, ◌≡◌, Bool, true, false, List, Option, some, none, ◌==◌, Eq, if◌then◌else◌,
}
use skateboard.Prelude.Text.{codes}
use skateboard.Errors.{Error, Result, ok, raise, runtime_error, ◌>>=◌}
use skateboard.Ledger.FileSet.{text_eq}
use skateboard.Region.Glob.{Text}
use skateboard.Region.Submit.{Files}

-- The commands that the code runs: `rev-parse`, `commit-tree` (with the time it stamps), `update-ref`
-- with the value that it expects, and the tree that `hash-object`, `update-index` and `write-tree`
-- make of a dictionary of files.
pub record Git : Type 1 where
  pub Repo : Type 0
  pub Commit : Type 0
  pub TreeId : Type 0
  pub tree_eq : Eq TreeId
  pub rev_parse : Repo → Text → Option Commit
  pub tree_of : Commit → TreeId
  pub parent_of : Commit → Option Commit
  pub build_tree : Files → TreeId
  pub commit_tree : ℕ → TreeId → Commit → Text → Commit
  pub update_ref : Repo → Text → Commit → Option Commit → Option Repo

-- `git help commit-tree` and `git help update-ref`
pub record IsGit (g : Git) : Type 0 where
  pub commit_tree-tree :
      (now : ℕ) (tree : g.TreeId) (parent : g.Commit) (message : Text)
      → g.tree_of (g.commit_tree now tree parent message) ≡ tree
  pub commit_tree-parent :
      (now : ℕ) (tree : g.TreeId) (parent : g.Commit) (message : Text)
      → g.parent_of (g.commit_tree now tree parent message) ≡ some parent
  pub update_ref-expects :
      (r r' : g.Repo) (branch : Text) (new : g.Commit) (old : Option g.Commit)
      → g.update_ref r branch new old ≡ some r'
      → g.rev_parse r branch ≡ old
  pub update_ref-moves :
      (r r' : g.Repo) (branch : Text) (new : g.Commit) (old : Option g.Commit)
      → g.update_ref r branch new old ≡ some r'
      → g.rev_parse r' branch ≡ some new
  pub update_ref-others :
      (r r' : g.Repo) (branch other : Text) (new : g.Commit) (old : Option g.Commit)
      → g.update_ref r branch new old ≡ some r'
      → (other == branch) ≡ false
      → g.rev_parse r' other ≡ g.rev_parse r other

module _ (g : Git) where
  -- What the first half read and built.
  pub record Attempt : Type 0 where
    pub git_tree : g.TreeId
    pub old_tip : Option g.Commit
    pub parent : g.Commit

  abbrev parent_or_main : Option g.Commit → Option g.Commit → Result g.Commit
  parent_or_main (some tip) main = ok tip
  parent_or_main none (some main) = ok main
  parent_or_main none none = raise (runtime_error "git rev-parse")

  unfoldable pub begin : g.Repo → Text → Files → Result Attempt
  begin repo branch files =
      parent_or_main (g.rev_parse repo branch) (g.rev_parse repo (codes "main")) >>= λ parent.
      ok (record {
        git_tree = g.build_tree files;
        old_tip = g.rev_parse repo branch;
        parent = parent;
      })

  -- `ConcurrentSubmissionError` where `update-ref` fails.
  abbrev moved : Bool → Option g.Repo → Result (Bool × g.Repo)
  moved committed none = raise (runtime_error "region branch changed during submit")
  moved committed (some repo) = ok (committed, repo)

  abbrev unchanged : g.Repo → Text → Attempt → Option g.Commit → Result (Bool × g.Repo)
  unchanged repo branch a none = moved false (g.update_ref repo branch a.parent none)
  unchanged repo branch a (some tip) = ok (false, repo)

  unfoldable pub finish : ℕ → Text → Text → Attempt → g.Repo → Result (Bool × g.Repo)
  finish now branch message a repo =
      if g.tree_eq.beq a.git_tree (g.tree_of a.parent)
      then unchanged repo branch a a.old_tip
      else moved true
          (g.update_ref repo branch (g.commit_tree now a.git_tree a.parent message) a.old_tip)

  -- `_commit_tree_if_changed`, when no other process comes between.
  unfoldable pub commit_tree_if_changed : ℕ → g.Repo → Text → Files → Text → Result (Bool × g.Repo)
  unfolding begin finish
  commit_tree_if_changed now repo branch files message =
      begin repo branch files >>= λ a. finish now branch message a repo
