-- ===== src/Gitx/Texts.antt =====
-- The functions of strings and path/filepath that reading git's output calls, on a Unix path.
use c_squad.App.Labels.{is_digit, atoi, number_from}
use c_squad.Base.{
  Option, none, some, all, not, ◌||◌, ◌&&◌, ℕ, ◌≡◌, refl, List, [], ◌∷◌, reverse, ◌==◌, is_empty,
  drop, length, if◌then◌else◌, Text, lit, cut, has_prefix,
}

-- The line in progress is kept reversed.
unfoldable pub split_from : Text → Text → ℕ → List Text
split_from line [] c = reverse line ∷ []
split_from line (a ∷ s) c =
    let rest = split_from (if a == c then [] else a ∷ line) s c in
    if a == c then reverse line ∷ rest else rest

-- strings.Split at one character: the empty text is one empty part.
unfoldable pub split : Text → ℕ → List Text
unfolding split_from
split s c = split_from [] s c

drop_left : Text → ℕ → Text
drop_left [] c = []
drop_left (a ∷ s) c = if a == c then drop_left s c else a ∷ s

-- strings.TrimRight of one character.
unfoldable pub trim_right : Text → ℕ → Text
unfolding drop_left
trim_right s c = reverse (drop_left (reverse s) c)

-- strings.TrimPrefix
unfoldable pub trim_prefix : Text → Text → Text
trim_prefix s p = if has_prefix s p then drop (length p) s else s

-- strings.Cut at one character, its first two results.
unfoldable pub cut_at : Text → ℕ → Text × Text
cut_at s c = let (head, tail, _) = cut s c in (head, tail)

after_last : Text → Text → Text
after_last word [] = reverse word
after_last word (a ∷ s) = after_last (if a == b'/' then [] else a ∷ word) s

-- filepath.Base: the last element, without trailing slashes.
base_of : Text → Text → Text
unfolding after_last
base_of [] trimmed = lit "."
base_of (c ∷ s) [] = lit "/"
base_of (c ∷ s) (d ∷ t) = after_last [] (d ∷ t)

unfoldable pub base_name : Text → Text
unfolding base_of
base_name s = base_of s (trim_right s b'/')

last_line : List Text → Text
last_line [] = []
last_line (l ∷ []) = l
last_line (l ∷ m ∷ ls) = last_line (m ∷ ls)

-- The text after the last "@{", if there is one.
after_brace : Text → Option Text
after_brace [] = none
after_brace (a ∷ []) = none
after_brace (a ∷ b ∷ s) = elim (after_brace (b ∷ s)) [
  | some t ↦ some t
  | none ↦ if a == b'@' && b == b'{' then some s else none
]

-- The text before the last "}", if there is one.
before_brace : Text → Option Text
before_brace [] = none
before_brace (a ∷ s) = elim (before_brace s) [
  | some t ↦ some (a ∷ t)
  | none ↦ if a == b'}' then some [] else none
]

-- A number of seconds; a sign, which git prints for no date here, is not read.
seconds_of : Text → Option ℕ
seconds_of d = if is_empty d || not (all is_digit d) then none else atoi d

-- The date of the last line of a reflog: the number in its last "@{…}".
unfoldable pub reflog_time : Text → Option ℕ
unfolding last_line after_brace before_brace seconds_of
reflog_time out = elim (after_brace (last_line (split out 10))) [
  | none ↦ none
  | some t ↦ elim (before_brace t) [ none ↦ none | some d ↦ seconds_of d ]
]

reflog_time_test : reflog_time (lit "b@{20}\nb@{17}") ≡ some 17
unfolding reflog_time split lit atoi number_from
reflog_time_test = refl

base_name_test : base_name (lit "/home/u/t12-fix/") ≡ lit "t12-fix"
unfolding base_name trim_right lit
base_name_test = refl
