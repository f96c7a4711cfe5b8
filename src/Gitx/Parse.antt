-- ===== src/Gitx/Parse.antt =====
-- What git prints, read (internal/gitx/gitx.go): the worktree list, the log with cherry marks, and the
-- status with NUL between its entries. On Unix `filepath.FromSlash` changes nothing.
use c_squad.Gitx.Kinds.{Worktree, Commit}
use c_squad.Gitx.Texts.{split, trim_right, trim_prefix, cut_at}
use c_squad.Base.{
  ℕ, Bool, true, false, ◌&&◌, ◌||◌, not, List, [], ◌∷◌, reverse, ◌==◌, is_empty, if◌then◌else◌,
  Text, lit, text_eq,
}

abbrev pub worktree_at : Text → Worktree
worktree_at path = record {
  path = path;
  head = [];
  branch = [];
  detached = false;
  locked = false;
  bare = false;
}

-- A line that is not the first of its entry changes the entry in progress, the newest, if there is one.
on_newest : (Worktree → Worktree) → List Worktree → List Worktree
on_newest f [] = []
on_newest f (w ∷ ws) = f w ∷ ws

-- One line of the list, with the entries so far, the newest first.
unfoldable pub worktree_field : Text → Text → List Worktree → List Worktree
unfolding on_newest
worktree_field key val ws =
    if text_eq key (lit "worktree")
    then worktree_at val ∷ ws
    else if text_eq key (lit "HEAD")
    then on_newest (λ w. record w { head = val }) ws
    else if text_eq key (lit "branch")
    then on_newest (λ w. record w { branch = trim_prefix val (lit "refs/heads/") }) ws
    else if text_eq key (lit "detached")
    then on_newest (λ w. record w { detached = true }) ws
    else if text_eq key (lit "locked")
    then on_newest (λ w. record w { locked = true }) ws
    else if text_eq key (lit "bare")
    then on_newest (λ w. record w { bare = true }) ws
    else ws

unfoldable pub worktree_line : Text → List Worktree → List Worktree
worktree_line line ws = let (key, val) = cut_at (trim_right line 13) 32 in worktree_field key val ws

unfoldable pub worktree_lines : List Text → List Worktree → List Worktree
worktree_lines [] ws = ws
worktree_lines (l ∷ ls) ws = worktree_lines ls (worktree_line l ws)

-- `git worktree list --porcelain`; the first entry is the main checkout.
unfoldable pub read_worktrees : Text → List Worktree
read_worktrees out = reverse (worktree_lines (split out 10) [])

-- One line of `git log --cherry-mark --format=%m %h %s`.
unfoldable pub commit_of : Text → Text → Commit
commit_of mark rest =
    let (hash, subject) = cut_at rest 32 in
    record { hash = hash; subject = subject; in_patch = text_eq mark (lit "=") }

unfoldable pub read_commits : List Text → List Commit
read_commits [] = []
read_commits (l ∷ ls) =
    let (mark, rest) = cut_at (trim_right l 13) 32 in
    let later = read_commits ls in if is_empty mark then later else commit_of mark rest ∷ later

-- `git status --porcelain -z`: the tracked paths that changed, and the untracked ones. An entry shorter
-- than its mark, a space and a path is skipped, and so is the source path that follows a rename or copy.
abbrev pub is_mark : ℕ → ℕ → ℕ → Bool
is_mark c x y = x == c && y == c

abbrev pub has_source : ℕ → ℕ → Bool
has_source x y = not (is_mark b'?' x y) && not (is_mark b'!' x y) && (x == b'R' || x == b'C')

abbrev pub add_change : ℕ → ℕ → Text → List Text × List Text → List Text × List Text
add_change x y path (tracked, untracked) =
    if is_mark b'?' x y
    then (tracked, path ∷ untracked)
    else if is_mark b'!' x y
    then (tracked, untracked)
    else (path ∷ tracked, untracked)

unfoldable pub status_from : Bool → List Text → List Text × List Text
status_from source [] = ([], [])
status_from true (_ ∷ es) = status_from false es
status_from false ((x ∷ y ∷ gap ∷ c ∷ path) ∷ es) =
    add_change x y (c ∷ path) (status_from (has_source x y) es)
status_from false (_ ∷ es) = status_from false es

unfoldable pub read_status : Text → List Text × List Text
read_status out = status_from false (split out 0)
