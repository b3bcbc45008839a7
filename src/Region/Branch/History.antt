-- ===== src/Region/Branch/History.antt =====
-- Submissions that interleave (equivalent/gateway/submit.py): each reads the repository at some time
-- and finishes at a later one, with any others in between.
use skateboard.Prelude.{
  ℕ, ◌≡◌, ap, sym, ◌∙◌, Bool, true, false, Option, some, none, Bool-cases, Option-cases, inl, inr,
  arith, ◌==◌,
}
use skateboard.Prelude.Text.{codes}
use skateboard.Errors.{Result, ok, >>=-eq-ok}
use skateboard.Ledger.FileSet.{text_eq}
use skateboard.Region.Glob.{Text}
use skateboard.Region.Submit.{Files}
use skateboard.Region.Branch.{
  Git, IsGit, Attempt, parent_or_main, begin, moved, finish, commit_tree_if_changed,
}

module _ (g : Git) where
  -- `c` is `d`, or a commit that `d` was made on top of.
  pub data Ancestor (c : g.Commit) : g.Commit → Type 0 where
    itself : Ancestor c c
    above : {d e : g.Commit} → Ancestor c d → g.parent_of e ≡ some d → Ancestor c e

  Ancestor-trans : {c d e : g.Commit} → Ancestor c d → Ancestor d e → Ancestor c e
  Ancestor-trans a itself = a
  Ancestor-trans a (above b p) = above (Ancestor-trans a b) p

  -- A submission to any branch, begun on any earlier or later state of the repository, succeeds here.
  pub data Step (r r' : g.Repo) : Type 0 where
    submits :
        (now : ℕ) (branch message : Text) (files : Files) (seen : g.Repo) (a : Attempt g) (b : Bool)
        → begin g seen branch files ≡ ok a
        → finish g now branch message a r ≡ ok (b, r')
        → Step r r'

  pub data Reach (r : g.Repo) : g.Repo → Type 0 where
    here : Reach r r
    next : {s t : g.Repo} → Reach r s → Step s t → Reach r t

  -- What `begin` answers with.
  parent_or_main-inv :
      (tip main : Option g.Commit) (p : g.Commit)
      → parent_or_main g tip main ≡ ok p
      → (t : g.Commit) → tip ≡ some t
      → p ≡ t
  parent_or_main-inv (some tip) main p h t e = ground arith
  parent_or_main-inv none main p h t e = absurd (ground arith)

  pub begin-inv :
      (r : g.Repo) (branch : Text) (files : Files) (a : Attempt g)
      → begin g r branch files ≡ ok a
      → (a.git_tree ≡ g.build_tree files)
        × (a.old_tip ≡ g.rev_parse r branch)
        × ((t : g.Commit) → a.old_tip ≡ some t → a.parent ≡ t)
  unfolding begin
  begin-inv r branch files a h =
      let tip = g.rev_parse r branch in
      let (p, e, h') = >>=-eq-ok (parent_or_main g tip (g.rev_parse r (codes "main"))) _ h in
      let made : record { git_tree = g.build_tree files; old_tip = tip; parent = p } ≡ a =
        ground arith in
      (
        ap (λ (x : Attempt g). x.git_tree) (sym made),
        ap (λ (x : Attempt g). x.old_tip) (sym made),
        λ t q.
            ap (λ (x : Attempt g). x.parent) (sym made)
            ∙ parent_or_main-inv tip (g.rev_parse r (codes "main")) p e t
                (ap (λ (x : Attempt g). x.old_tip) made ∙ q),
      )

  moved-inv :
      (committed b : Bool) (o : Option g.Repo) (r' : g.Repo)
      → moved g committed o ≡ ok (b, r')
      → (o ≡ some r') × (committed ≡ b)
  moved-inv committed b none r' h = absurd (ground arith)
  moved-inv committed b (some r) r' h =
      let e : ◌≡◌ {A = Result (Bool × g.Repo)} (ok (committed, r)) (ok (b, r')) = h in
      (ground arith, ground arith)

  -- The branch table after a finished submission, in each way it can succeed.
  data Outcome (now : ℕ) (branch message : Text) (a : Attempt g) (b : Bool) (r r' : g.Repo)
      : Type 0 where
    same :
        b ≡ false
        → r' ≡ r
        → (t : g.Commit) → a.old_tip ≡ some t
        → g.tree_of a.parent ≡ a.git_tree
        → Outcome now branch message a b r r'
    created :
        b ≡ false
        → a.old_tip ≡ none
        → g.tree_of a.parent ≡ a.git_tree
        → g.update_ref r branch a.parent none ≡ some r'
        → Outcome now branch message a b r r'
    committed :
        b ≡ true
        → g.update_ref r branch (g.commit_tree now a.git_tree a.parent message) a.old_tip ≡ some r'
        → Outcome now branch message a b r r'

  finish-Outcome :
      (now : ℕ) (branch message : Text) (a : Attempt g) (b : Bool) (r r' : g.Repo)
      → finish g now branch message a r ≡ ok (b, r')
      → Outcome now branch message a b r r'
  unfolding finish
  finish-Outcome now branch message a b r r' h =
      elim (Bool-cases (g.tree_eq.beq a.git_tree (g.tree_of a.parent))) [
        | inr f ↦ let (u, e) = moved-inv true b _ r' (rw (f, finish) at h) in committed (sym e) u
        | inl t ↦
            let tree = sym ((g.tree_eq.beq_iff a.git_tree (g.tree_of a.parent)).0 t) in
            elim (Option-cases a.old_tip) [
              | inl n ↦
                  let (u, e) = moved-inv false b _ r' (rw (t, n, finish) at h) in
                  created (sym e) n tree u
              | inr (tip, o) ↦
                  let e : ◌≡◌ {A = Result (Bool × g.Repo)} (ok (false, r)) (ok (b, r')) =
                    rw (t, o, finish) at h in
                  same (ground arith) (ground arith) tip o tree
            ]
      ]

  module _ (laws : IsGit g) where
    Outcome-Ancestor :
        {now : ℕ} {branch message : Text} {a : Attempt g} {b : Bool} {r r' : g.Repo}
        → ((t : g.Commit) → a.old_tip ≡ some t → a.parent ≡ t)
        → Outcome now branch message a b r r'
        → (other : Text) (tip : g.Commit) → g.rev_parse r other ≡ some tip
        → (tip' : g.Commit) × (g.rev_parse r' other ≡ some tip') × Ancestor tip tip'
    Outcome-Ancestor on (same e e' t o tree) other tip h = (tip, rw e' h, itself)
    Outcome-Ancestor {branch} {a} {r} {r'} on (created e n tree u) other tip h =
        elim (Bool-cases (other == branch)) [
          | inr f ↦ (tip, laws.update_ref-others r r' branch other a.parent none u f ∙ h, itself)
          | inl t ↦
              let q : g.rev_parse r other ≡ none =
                rw ((text_eq.beq_iff other branch).0 t)
                  (laws.update_ref-expects r r' branch a.parent none u) in
              absurd (ground arith)
        ]
    Outcome-Ancestor {now} {branch} {message} {a} {r} {r'} on (committed e u) other tip h =
        let new = g.commit_tree now a.git_tree a.parent message in
        elim (Bool-cases (other == branch)) [
          | inr f ↦ (tip, laws.update_ref-others r r' branch other new a.old_tip u f ∙ h, itself)
          | inl t ↦
              let there = (text_eq.beq_iff other branch).0 t in
              let q : a.old_tip ≡ some tip =
                sym (laws.update_ref-expects r r' branch new a.old_tip u)
                ∙ ap (g.rev_parse r) (sym there)
                ∙ h in
              (
                new,
                ap (g.rev_parse r') there ∙ laws.update_ref-moves r r' branch new a.old_tip u,
                above itself
                    (laws.commit_tree-parent now a.git_tree a.parent message ∙ ap some (on tip q)),
              )
        ]

    -- However submissions interleave, on whatever branches, none is lost: a commit that was once the
    -- tip of a branch is, after any number of finished submissions, still the tip or an ancestor of it.
    pub Reach-Ancestor :
        (r r' : g.Repo) (branch : Text) (tip : g.Commit)
        → Reach r r'
        → g.rev_parse r branch ≡ some tip
        → (tip' : g.Commit) × (g.rev_parse r' branch ≡ some tip') × Ancestor tip tip'
    Reach-Ancestor r r' branch tip here h = (tip, h, itself)
    Reach-Ancestor r r' branch tip
          (next {s} steps (submits now b message files seen a c began done)) h =
        let (mid, e, up) = Reach-Ancestor r s branch tip steps h in
        let (_, _, on) = begin-inv seen b files a began in
        let (tip', e', up') =
          Outcome-Ancestor on (finish-Outcome now b message a c s r' done) branch mid e in
        (tip', e', Ancestor-trans up up')

    -- A submission that no other process comes between leaves a branch whose tip holds exactly the
    -- tree of its files, whether or not it had to commit.
    pub commit_tree_if_changed-tree :
        (now : ℕ) (r r' : g.Repo) (branch message : Text) (files : Files) (b : Bool)
        → commit_tree_if_changed g now r branch files message ≡ ok (b, r')
        → (tip : g.Commit) × (g.rev_parse r' branch ≡ some tip)
          × (g.tree_of tip ≡ g.build_tree files)
    unfolding commit_tree_if_changed
    commit_tree_if_changed-tree now r r' branch message files b h =
        let (a, began, done) = >>=-eq-ok (begin g r branch files) _ h in
        let (tree, old, on) = begin-inv r branch files a began in
        elim (finish-Outcome now branch message a b r r' done) [
          | same e e' t o held ↦ (
            t,
            ap (λ x. g.rev_parse x branch) e' ∙ sym old ∙ o,
            ap g.tree_of (sym (on t o)) ∙ held ∙ tree,
          )
          | created e n held u ↦
              (a.parent, laws.update_ref-moves r r' branch a.parent none u, held ∙ tree)
          | committed e u ↦
              let new = g.commit_tree now a.git_tree a.parent message in
              (
                new,
                laws.update_ref-moves r r' branch new a.old_tip u,
                laws.commit_tree-tree now a.git_tree a.parent message ∙ tree,
              )
        ]
