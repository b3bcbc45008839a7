-- ===== src/Tests/Branches.antt =====
-- A repository as a table of branches, where a commit is the list of the trees it was made from.
use skateboard.Prelude.{
  ℕ, ◌≡◌, refl, ap, ◌∙◌, inl, inr, Bool, true, false, ◌&&◌, List, [], ◌∷◌, ◌++◌, Option, some, none,
  lookup, put, ◌==◌, ==-refl, if◌then◌else◌, arith, Bool-cases,
}
use skateboard.Prelude.Text.{codes}
use skateboard.Errors.{ok}
use skateboard.Ledger.FileSet.{text_eq}
use skateboard.Region.Glob.{Text}
use skateboard.Region.Submit.{Files}
use skateboard.Region.Submit.Frozen.{lookup-put}
use skateboard.Region.Branch.{Git, IsGit, Attempt, begin, finish, commit_tree_if_changed}
use skateboard.Region.Branch.History.{Ancestor, Step, Reach, Reach-Ancestor}

abbrev Commits : Type 0
Commits = List (List ℕ)

abbrev commit_beq : Commits → Commits → Bool
commit_beq [] [] = true
commit_beq (t ∷ c) (u ∷ d) = (t == u) && commit_beq c d
commit_beq _ _ = false

commit_beq-eq : (c d : Commits) → commit_beq c d ≡ true → c ≡ d
commit_beq-eq [] [] h = refl
commit_beq-eq [] (u ∷ d) h = absurd (ground arith)
commit_beq-eq (t ∷ c) [] h = absurd (ground arith)
commit_beq-eq (t ∷ c) (u ∷ d) h =
    let same_tree : t ≡ u = (text_eq.beq_iff t u).0 (ground arith) in
    let same_rest : c ≡ d = commit_beq-eq c d (ground arith) in rw (same_tree, same_rest) refl

abbrev is_tip : Option Commits → Option Commits → Bool
is_tip none none = true
is_tip (some c) (some d) = commit_beq c d
is_tip _ _ = false

is_tip-eq : (a b : Option Commits) → is_tip a b ≡ true → a ≡ b
is_tip-eq none none h = refl
is_tip-eq none (some d) h = absurd (ground arith)
is_tip-eq (some c) none h = absurd (ground arith)
is_tip-eq (some c) (some d) h = ap some (commit_beq-eq c d h)

abbrev Branches : Type 0
Branches = List (Text × Commits)

abbrev bytes_of : Files → List ℕ
bytes_of [] = []
bytes_of ((path, raw) ∷ files) = path ++ raw ++ bytes_of files

abbrev update : Branches → Text → Commits → Option Commits → Option Branches
update r branch new old = if is_tip (lookup branch r) old then some (put branch new r) else none

abbrev a_git : Git
a_git = record {
  Repo = Branches;
  Commit = Commits;
  TreeId = List ℕ;
  tree_eq = text_eq;
  rev_parse = λ r branch. lookup branch r;
  tree_of = λ c. elim c [ [] ↦ [] | t ∷ rest ↦ t ];
  parent_of = λ c. elim c [ [] ↦ none | t ∷ rest ↦ some rest ];
  build_tree = bytes_of;
  commit_tree = λ now tree parent message. tree ∷ parent;
  update_ref = update;
}

-- A move that succeeded found the expected tip, and wrote the table.
update-inv :
    (r r' : Branches)
    → (branch : Text) → (new : Commits) → (old : Option Commits) → update r branch new old ≡ some r'
    → (lookup branch r ≡ old) × (r' ≡ put branch new r)
update-inv r r' branch new old h = elim (Bool-cases (is_tip (lookup branch r) old)) [
  | inl same ↦
      let e : ◌≡◌ {A = Option Branches} (some (put branch new r)) (some r') = rw (same) at h in
      (is_tip-eq _ old same, ground arith)
  | inr other ↦ absurd (ground arith)
]

a_git-IsGit : IsGit a_git
a_git-IsGit = record {
  commit_tree-tree = λ now tree parent message. refl;
  commit_tree-parent = λ now tree parent message. refl;
  update_ref-expects = λ r r' branch new old h. (update-inv r r' branch new old h).0;
  update_ref-moves = λ r r' branch new old h.
      ap (lookup branch) (update-inv r r' branch new old h).1
      ∙ lookup-put branch branch new r
      ∙ (rw (==-refl branch) refl);
  update_ref-others = λ r r' branch other new old h apart.
      ap (lookup other) (update-inv r r' branch new old h).1
      ∙ lookup-put other branch new r
      ∙ (rw (apart) refl);
}

abbrev repo : Branches
repo = (codes "main", (1 ∷ []) ∷ []) ∷ []

abbrev files : Files
files = (codes "a", 2 ∷ []) ∷ []

abbrev new_tip : Commits
new_tip = (97 ∷ 2 ∷ []) ∷ (1 ∷ []) ∷ []

abbrev after : Branches
after = (codes "main", (1 ∷ []) ∷ []) ∷ (codes "r", new_tip) ∷ []

submitted : commit_tree_if_changed a_git 7 repo (codes "r") files [] ≡ ok (true, after)
unfolding commit_tree_if_changed
submitted = refl

abbrev attempt : Attempt a_git
attempt = record { git_tree = 97 ∷ 2 ∷ []; old_tip = none; parent = (1 ∷ []) ∷ [] }

begun : begin a_git repo (codes "r") files ≡ ok attempt
unfolding begin
begun = refl

finished : finish a_git 7 (codes "r") [] attempt repo ≡ ok (true, after)
unfolding finish
finished = refl

one_step : Reach a_git repo after
one_step =
    Reach.next Reach.here (Step.submits 7 (codes "r") [] files repo attempt true begun finished)

Reach-Ancestor_example :
    (tip' : Commits) × (lookup (codes "main") after ≡ some tip')
    × Ancestor a_git ((1 ∷ []) ∷ []) tip'
Reach-Ancestor_example =
    Reach-Ancestor a_git a_git-IsGit repo after (codes "main") ((1 ∷ []) ∷ []) one_step refl
