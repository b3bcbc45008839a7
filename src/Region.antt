-- ===== src/Region.antt =====
-- A region's files: which may change, what a submit makes of them, and where it is committed.
-- Names of branches: `region_slug` and `region_branch` of equivalent/region/config.py.
pub mod Glob
pub mod AllowList
pub mod Submit
pub mod Branch
use skateboard.Prelude.{ℕ, List, ◌++◌, map, nat_beq, if◌then◌else◌}
use skateboard.Prelude.Text.{codes}

-- `region_id.replace(":", "-")`
unfoldable pub region_slug : List ℕ → List ℕ
region_slug = map (λ c. if nat_beq c b':' then b'-' else c)

unfoldable pub region_branch : List ℕ → List ℕ
unfolding region_slug
region_branch region_id = codes "region/" ++ region_slug region_id
