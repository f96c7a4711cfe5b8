-- ===== src/Gitx/Merges.antt =====
-- What `Merged` says: ancestors, and commits that are all in the target by patch.
use c_squad.Gitx.Kinds.{ok, Commit}
use c_squad.Gitx.Texts.{split}
use c_squad.Gitx.Parse.{read_commits}
use c_squad.Gitx.Query.{
  Shell, Ancestor, yes_ancestor, no_ancestor, broken, ancestor_reply, is_ancestor, by_patch,
  log_args, merged_unless, merged,
}
use c_squad.Finish.Safe.{and_then-ok, ok-inj}
use c_squad.Base.{
  ◌≡◌, ◌≢◌, refl, ap, ◌∙◌, ◌⊎◌, inl, inr, Bool, true, false, List, [], ◌∷◌, All, all, Text, arith,
  if◌then◌else◌,
}

-- Head's work is in the target: it is an ancestor, or it has commits of its own and git marked each of
-- them as one whose patch is in the target.
pub data IsIn (g : Shell) (dir head target : Text) : Type 0 where
  ancestor : g.ancestor dir head target ≡ yes_ancestor → IsIn g dir head target
  patches :
      (out : Text)
      → g.ancestor dir head target ≡ no_ancestor
      → g.run dir (log_args head target) ≡ ok out
      → read_commits (split out 10) ≢ []
      → All (λ c. c.in_patch ≡ true) (read_commits (split out 10))
      → IsIn g dir head target

by_patch-All : (cs : List Commit) → by_patch cs ≡ true → (cs ≢ []) × All (λ c. c.in_patch ≡ true) cs
by_patch-All [] h = cc
by_patch-All (c ∷ cs) h = (λ e. cc, all-All (c ∷ cs) h)
  where
    all-All : (ds : List Commit) → all (λ c. c.in_patch) ds ≡ true → All (λ c. c.in_patch ≡ true) ds
    all-All [] k = tt
    all-All (d ∷ ds) k = (ground (arith, k), all-All ds (ground (arith, k)))

ancestor_reply-ok :
    (a b : Text) (r : Ancestor) (x : Bool)
    → ancestor_reply a b r ≡ ok x
    → r ≡ (if x then yes_ancestor else no_ancestor)
unfolding ancestor_reply
ancestor_reply-ok a b yes_ancestor true h = refl
ancestor_reply-ok a b yes_ancestor false h = cc
ancestor_reply-ok a b no_ancestor true h = cc
ancestor_reply-ok a b no_ancestor false h = refl
ancestor_reply-ok a b (broken e) x h = cc

module _ (g : Shell) (dir head target : Text) (m patch : Bool) (cs : List Commit) where
  merged_unless-IsIn :
      (yes : Bool)
      → is_ancestor g dir head target ≡ ok yes
      → merged_unless g dir head target yes ≡ ok (m, patch, cs)
      → (m ≡ true) ⊎ (patch ≡ true)
      → IsIn g dir head target
  unfolding is_ancestor merged_unless
  merged_unless-IsIn true e h k = ancestor (ancestor_reply-ok head target _ true e)
  merged_unless-IsIn false e h k =
      let (out, ran, h') = and_then-ok (g.run dir (log_args head target)) _ _ h in
      let same =
        ok-inj
          (
            by_patch (read_commits (split out 10)),
            by_patch (read_commits (split out 10)),
            read_commits (split out 10),
          )
          (m, patch, cs) h' in
      let all_in : by_patch (read_commits (split out 10)) ≡ true = elim k [
        | inl q ↦ ap (λ r. r.0) same ∙ q
        | inr q ↦ ap (λ r. r.1) same ∙ q
      ] in
      let (own, good) = by_patch-All (read_commits (split out 10)) all_in in
      patches out (ancestor_reply-ok head target _ false e) ran own good

-- `Merged` answers that the work is in the target, as a whole or by patch, only if head is an
-- ancestor of the target, or has commits of its own that git marked as in the target, each of them.
pub merged-IsIn :
    (g : Shell) (dir head target : Text) (m patch : Bool) (cs : List Commit)
    → merged g dir head target ≡ ok (m, patch, cs)
    → (m ≡ true) ⊎ (patch ≡ true)
    → IsIn g dir head target
unfolding merged
merged-IsIn g dir head target m patch cs h k =
    let (said, e, h') =
      and_then-ok (is_ancestor g dir head target) (merged_unless g dir head target) _ h in
    merged_unless-IsIn g dir head target m patch cs said e h' k
