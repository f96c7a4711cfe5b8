-- ===== src/Gitx/Status.antt =====
-- `git status --porcelain -z` and how it is read back.
use c_squad.Gitx.Texts.{split, split_from}
use c_squad.Gitx.Parse.{status_from, add_change, has_source, is_mark, read_status}
use mathlib.Core.List.{reverse_aux-eq, append-nil, append_assoc}
use c_squad.Base.{
  ℕ, ◌≡◌, ◌≢◌, refl, sym, ap, ◌∙◌, Bool, true, false, if-else, List, [], ◌∷◌, ◌++◌, reverse, All,
  ◌==◌, arith, Text,
}

-- What git says of one side of a path: nothing, modified, its type changed, added, deleted, not merged.
pub data Code : Type 0 where
  unmodified modified type_changed added deleted unmerged : Code

abbrev pub letter : Code → ℕ
letter unmodified = 32
letter modified = b'M'
letter type_changed = b'T'
letter added = b'A'
letter deleted = b'D'
letter unmerged = b'U'

pub data Origin : Type 0 where
  renamed copied : Origin

abbrev pub origin_letter : Origin → ℕ
origin_letter renamed = b'R'
origin_letter copied = b'C'

-- One entry of the status: the index's side, then the worktree's. A path has a first character `c`. A
-- path that was renamed or copied in the index names its source too. Renames and copies that only the
-- worktree's side has (" R", " C") are left out: the code takes their source for a change.
pub data Change : Type 0 where
  tracked : Code → Code → ℕ → Text → Change
  moved : Origin → Code → ℕ → Text → Text → Change
  untracked ignored : ℕ → Text → Change

abbrev pub entries_of : Change → List Text
entries_of (tracked x y c p) = (letter x ∷ letter y ∷ 32 ∷ c ∷ p) ∷ []
entries_of (moved o y c p source) = (origin_letter o ∷ letter y ∷ 32 ∷ c ∷ p) ∷ source ∷ []
entries_of (untracked c p) = (b'?' ∷ b'?' ∷ 32 ∷ c ∷ p) ∷ []
entries_of (ignored c p) = (b'!' ∷ b'!' ∷ 32 ∷ c ∷ p) ∷ []

-- Each entry ends with a NUL.
unfoldable pub ended : List Text → Text → Text
ended [] rest = rest
ended (e ∷ es) rest = e ++ 0 ∷ ended es rest

unfoldable pub print_status : List Change → Text
unfolding ended
print_status [] = []
print_status (c ∷ cs) = ended (entries_of c) (print_status cs)

-- The paths that changed, and those that git does not know, in their order.
unfoldable pub paths_of : List Change → List Text × List Text
paths_of [] = ([], [])
paths_of (tracked x y c p ∷ cs) = let (t, u) = paths_of cs in ((c ∷ p) ∷ t, u)
paths_of (moved x y c p source ∷ cs) = let (t, u) = paths_of cs in ((c ∷ p) ∷ t, u)
paths_of (untracked c p ∷ cs) = let (t, u) = paths_of cs in (t, (c ∷ p) ∷ u)
paths_of (ignored c p ∷ cs) = paths_of cs

abbrev pub HasNoNul : Text → Type 0
HasNoNul s = All (λ c. c ≢ 0) s

-- No NUL in a path.
abbrev pub IsWritten : Change → Type 0
IsWritten (tracked x y c p) = HasNoNul (c ∷ p)
IsWritten (moved o y c p source) = HasNoNul (c ∷ p) × HasNoNul source
IsWritten (untracked c p) = HasNoNul (c ∷ p)
IsWritten (ignored c p) = HasNoNul (c ∷ p)

reverse-cons_append : (a : ℕ) (l e : Text) → reverse (a ∷ l) ++ e ≡ reverse l ++ a ∷ e
reverse-cons_append a l e =
    ap (λ s. s ++ e) (reverse_aux-eq l (a ∷ [])) ∙ append_assoc (reverse l) (a ∷ []) e

split_from-ended :
    (e : Text) (line s : Text)
    → HasNoNul e
    → split_from line (e ++ 0 ∷ s) 0 ≡ (reverse line ++ e) ∷ split_from [] s 0
unfolding split_from
split_from-ended [] line s h = ap (λ t. t ∷ split_from [] s 0) (sym (append-nil (reverse line)))
split_from-ended (a ∷ e) line s (n, h) =
    let q : (a == 0) ≡ false = ground (arith, n) in
    rw q (
      split_from-ended e (a ∷ line) s h
      ∙ ap (λ t. t ∷ split_from [] s 0) (reverse-cons_append a line e))

split-ended : (e s : Text) → HasNoNul e → split (e ++ 0 ∷ s) 0 ≡ e ∷ split s 0
unfolding split
split-ended e s h = split_from-ended e [] s h

marked : (m n c : ℕ) (p : Text) → m ≢ 0 → n ≢ 0 → HasNoNul (c ∷ p) → HasNoNul (m ∷ n ∷ 32 ∷ c ∷ p)
marked m n c p h k q = (h, (k, (omega arith, q)))

letter-some : (x : Code) → letter x ≢ 0
letter-some unmodified = omega arith
letter-some modified = omega arith
letter-some type_changed = omega arith
letter-some added = omega arith
letter-some deleted = omega arith
letter-some unmerged = omega arith

-- How the two letters of an entry are read.
record Reads (x y : ℕ) (source : Bool) : Type 0 where
  known : is_mark b'?' x y ≡ false
  told : is_mark b'!' x y ≡ false
  sourced : has_source x y ≡ source

letter-Reads : (x : Code) (y : ℕ) → Reads (letter x) y false
letter-Reads unmodified y = record { known = refl; told = refl; sourced = refl }
letter-Reads modified y = record { known = refl; told = refl; sourced = refl }
letter-Reads type_changed y = record { known = refl; told = refl; sourced = refl }
letter-Reads added y = record { known = refl; told = refl; sourced = refl }
letter-Reads deleted y = record { known = refl; told = refl; sourced = refl }
letter-Reads unmerged y = record { known = refl; told = refl; sourced = refl }

origin_letter-some : (o : Origin) → origin_letter o ≢ 0
origin_letter-some renamed = omega arith
origin_letter-some copied = omega arith

origin_letter-Reads : (o : Origin) (y : ℕ) → Reads (origin_letter o) y true
origin_letter-Reads renamed y = record { known = refl; told = refl; sourced = refl }
origin_letter-Reads copied y = record { known = refl; told = refl; sourced = refl }

add_change-tracked :
    (x y : ℕ) (path : Text) (r : List Text × List Text)
    → is_mark b'?' x y ≡ false
    → is_mark b'!' x y ≡ false
    → add_change x y path r ≡ (path ∷ r.0, r.1)
add_change-tracked x y path r m n =
    if-else (is_mark b'?' x y) _ _ m ∙ if-else (is_mark b'!' x y) _ _ n

nothing_read : read_status [] ≡ ([], [])
unfolding read_status split status_from
nothing_read = refl

tracked_first :
    (x y c : ℕ) (p : Text) (source : Bool) (es : List Text)
    → Reads x y source
    → status_from false ((x ∷ y ∷ 32 ∷ c ∷ p) ∷ es)
      ≡ (let (t, u) = status_from source es in ((c ∷ p) ∷ t, u))
unfolding status_from
tracked_first x y c p source es r =
    add_change-tracked x y (c ∷ p) _ r.known r.told
    ∙ ap (λ b. ((c ∷ p) ∷ (status_from b es).0, (status_from b es).1)) r.sourced

-- For paths without NUL, none of them renamed or copied in the worktree alone, reading the status back
-- gives the paths that changed and those that are not tracked, and takes no source of a rename or copy
-- for a change.
pub read_status-print_status :
    (cs : List Change) → All IsWritten cs → read_status (print_status cs) ≡ paths_of cs
unfolding read_status print_status paths_of status_from
read_status-print_status [] h = nothing_read
read_status-print_status (tracked x y c p ∷ cs) (w, h) =
    ap (status_from false) (
      split-ended (letter x ∷ letter y ∷ 32 ∷ c ∷ p) (print_status cs)
        (marked (letter x) (letter y) c p (letter-some x) (letter-some y) w))
    ∙ tracked_first (letter x) (letter y) c p false (split (print_status cs) 0)
        (letter-Reads x (letter y))
    ∙ ap (λ r. ((c ∷ p) ∷ r.0, r.1)) (read_status-print_status cs h)
read_status-print_status (moved o y c p source ∷ cs) ((w, v), h) =
    let x = origin_letter o in
    ap (status_from false) (
      split-ended (x ∷ letter y ∷ 32 ∷ c ∷ p) (source ++ 0 ∷ print_status cs)
        (marked x (letter y) c p (origin_letter-some o) (letter-some y) w)
      ∙ ap (λ r. (x ∷ letter y ∷ 32 ∷ c ∷ p) ∷ r) (split-ended source (print_status cs) v))
    ∙ tracked_first x (letter y) c p true (source ∷ split (print_status cs) 0)
        (origin_letter-Reads o (letter y))
    ∙ ap (λ r. ((c ∷ p) ∷ r.0, r.1)) (read_status-print_status cs h)
read_status-print_status (untracked c p ∷ cs) (w, h) =
    ap (status_from false) (
      split-ended (b'?' ∷ b'?' ∷ 32 ∷ c ∷ p) (print_status cs)
        (marked b'?' b'?' c p (omega arith) (omega arith) w))
    ∙ ap (λ r. (r.0, (c ∷ p) ∷ r.1)) (read_status-print_status cs h)
read_status-print_status (ignored c p ∷ cs) (w, h) =
    ap (status_from false) (
      split-ended (b'!' ∷ b'!' ∷ 32 ∷ c ∷ p) (print_status cs)
        (marked b'!' b'!' c p (omega arith) (omega arith) w))
    ∙ read_status-print_status cs h
