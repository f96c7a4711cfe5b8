-- ===== src/Finish/Texts.antt =====
-- The texts of a refusal (internal/app/finish.go). Hashes and paths are lists of characters.
use c_squad.Gitx.Kinds.{Commit}
use c_squad.Base.{
  ℕ, ◌≡◌, refl, ◌-◌, ◌*◌, Bool, not, List, [], ◌∷◌, ◌++◌, map, ◌==◌, ltb, any, filterb, length,
  take, is_empty, if◌then◌else◌, Text, lit, text_eq, itoa, join, cut,
}

-- About how many commits, files or directories a refusal names.
abbrev list_cap : ℕ
list_cap = 5

unfoldable pub plural : ℕ → Text → Text
plural n noun = if n == 1 then lit "1 " ++ noun else itoa n ++ lit " " ++ noun ++ lit "s"

unfoldable pub short : Text → Text
short h = if ltb 12 (length h) then take 12 h else h

unfoldable pub or_none : List Text → Text
or_none [] = lit "nothing"
or_none (s ∷ l) = join (s ∷ l) (lit ", ")

unfoldable pub capped : List Text → Text
capped l =
    if ltb list_cap (length l)
    then join (take list_cap l) (lit ", ")
      ++ lit ", and "
      ++ itoa (length l - list_cap)
      ++ lit " more"
    else join l (lit ", ")

-- The commits that are not in the target by patch, at most ten of them, then how many are.
unfoldable pub commit_lines : List Commit → Text → List Text
unfolding plural
commit_lines commits target =
    let rest = map (λ c. c.hash ++ lit " " ++ c.subject) (filterb (λ c. not c.in_patch) commits) in
    let in_patch = length (filterb (λ c. c.in_patch) commits) in
    let shown =
      if ltb (2 * list_cap) (length rest)
      then take (2 * list_cap) rest
        ++ (lit "and " ++ itoa (length rest - 2 * list_cap) ++ lit " more") ∷ []
      else rest in
    if ltb 0 in_patch
    then shown
      ++ (plural in_patch (lit "commit")
          ++ lit " already in "
          ++ target
          ++ lit " by patch (cherry-picked)")
        ∷ []
    else shown

-- The directory of an untracked file, or the file itself.
group_of : Text → Text
group_of f = let (dir, _, found) = cut f b'/' in if found then dir ++ lit "/" else f

is_directory : Text → Bool
is_directory f = let (_, _, found) = cut f b'/' in found

-- The groups in the order of their first file.
groups_from : List Text → List Text → List Text
groups_from seen [] = []
groups_from seen (g ∷ gs) =
    let rest = groups_from (if any (text_eq g) seen then seen else g ∷ seen) gs in
    if any (text_eq g) seen then rest else g ∷ rest

group_text : List Text → Text → Text
unfolding is_directory plural
group_text all g =
    if is_directory g
    then g ++ lit " (" ++ plural (length (filterb (text_eq g) all)) (lit "file") ++ lit ")"
    else g

-- Modified tracked files, then untracked ones by their top-level directory.
unfoldable pub change_text : List Text → List Text → Text
unfolding group_of groups_from group_text capped
change_text tracked untracked =
    let all = map group_of untracked in
    let groups = map (group_text all) (groups_from [] all) in
    let modified =
      if is_empty tracked then [] else (lit "modified tracked files: " ++ capped tracked) ∷ [] in
    let new =
      if is_empty untracked
      then []
      else if is_empty tracked
      then (lit "only untracked files: " ++ capped groups) ∷ []
      else (lit "untracked files: " ++ capped groups) ∷ [] in
    join (modified ++ new) (lit "; ")

change_text_test :
    change_text [] (lit "a/x" ∷ lit "b" ∷ lit "a/y" ∷ [])
    ≡ lit "only untracked files: a/ (2 files), b"
unfolding change_text lit cut text_eq join capped plural itoa
change_text_test = refl
