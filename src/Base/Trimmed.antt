-- ===== src/Base/Trimmed.antt =====
-- Trimming a trimmed text changes nothing, and neither trimming nor cutting brings in a character.
use Prim.Native.Nat.{ℕ}
use mathlib.Core.Path.{◌≡◌, refl, ap, ◌∙◌}
use mathlib.Core.Logic.{inl, inr}
use mathlib.Core.Bool.{Bool, true, false, ◌||◌, not}
use mathlib.Core.List.{[], ◌∷◌, ◌++◌, reverse, reverse-cons, reverse-append, reverse-reverse}
use native.Mathlib.Omega.{arith}
use c_squad.Base.Tests.{◌==◌, Bool-cases}
use c_squad.Base.Lists.{any}
use c_squad.Base.Strings.{Text, is_space, trim_left, trim_space, cut}

-- Whether a text does not start with a space.
starts_word : Text → Bool
starts_word [] = true
starts_word (c ∷ s) = not (is_space c)

starts_word-trim_left : (s : Text) → starts_word (trim_left s) ≡ true
unfolding trim_left starts_word
starts_word-trim_left [] = refl
starts_word-trim_left (c ∷ s) = elim (Bool-cases (is_space c)) [
  | inl e ↦ rw e (starts_word-trim_left s)
  | inr e ↦ rw (e, e) refl
]

trim_left-word : (s : Text) → starts_word s ≡ true → trim_left s ≡ s
unfolding trim_left starts_word
trim_left-word [] h = refl
trim_left-word (c ∷ s) h = ground arith

-- A character that is no space stays at the end.
trim_left-append :
    (s : Text) (c : ℕ) → is_space c ≡ false → trim_left (s ++ c ∷ []) ≡ trim_left s ++ c ∷ []
unfolding trim_left
trim_left-append [] c h = rw h refl
trim_left-append (a ∷ s) c h = elim (Bool-cases (is_space a)) [
  | inl e ↦ rw e (trim_left-append s c h)
  | inr e ↦ rw e refl
]

starts_word-trimmed :
    (s : Text) → starts_word s ≡ true → starts_word (reverse (trim_left (reverse s))) ≡ true
unfolding trim_left starts_word
starts_word-trimmed [] h = refl
starts_word-trimmed (c ∷ s) h =
    let word : is_space c ≡ false = ground arith in
    let e =
      ap (λ t. reverse (trim_left t)) (reverse-cons c s)
      ∙ ap reverse (trim_left-append (reverse s) c word)
      ∙ reverse-append (trim_left (reverse s)) (c ∷ []) in
    ap starts_word e ∙ h

pub trim_space-trim_space : (s : Text) → trim_space (trim_space s) ≡ trim_space s
unfolding trim_space
trim_space-trim_space s =
    let t = trim_left (reverse (trim_left s)) in
    let first =
      trim_left-word (reverse t) (starts_word-trimmed (trim_left s) (starts_word-trim_left s)) in
    let last = trim_left-word t (starts_word-trim_left (reverse (trim_left s))) in
    ap (λ x. reverse (trim_left (reverse x))) first
    ∙ ap (λ x. reverse (trim_left x)) (reverse-reverse t)
    ∙ ap reverse last

any-trim_left : (p : ℕ → Bool) (s : Text) → any p s ≡ false → any p (trim_left s) ≡ false
unfolding trim_left
any-trim_left p [] h = refl
any-trim_left p (c ∷ s) h = elim (Bool-cases (is_space c)) [
  | inl e ↦ rw e (any-trim_left p s (ground arith))
  | inr e ↦ rw e h
]

any-append : (p : ℕ → Bool) (s t : Text) → any p (s ++ t) ≡ (any p s || any p t)
any-append p [] t = refl
any-append p (c ∷ s) t = ground (arith, any-append p s t)

any-reverse : (p : ℕ → Bool) (s : Text) → any p s ≡ false → any p (reverse s) ≡ false
any-reverse p [] h = refl
any-reverse p (c ∷ s) h =
    let rest = any-reverse p s (ground arith) in
    rw (reverse-cons c s, any-append p (reverse s) (c ∷ [])) (ground arith)

pub trim_space-any : (p : ℕ → Bool) (s : Text) → any p s ≡ false → any p (trim_space s) ≡ false
unfolding trim_space
trim_space-any p s h = any-reverse p _ (any-trim_left p _ (any-reverse p _ (any-trim_left p s h)))

-- What stands before the cut has not the character.
pub cut-before : (s : Text) (c : ℕ) → any (λ a. a == c) (cut s c).0 ≡ false
unfolding cut
cut-before [] c = refl
cut-before (a ∷ s) c = elim (Bool-cases (a == c)) [
  | inl e ↦ rw e refl
  | inr e ↦ rw (e, e) (cut-before s c)
]

-- A text is cut behind a beginning that has not the character.
pub cut-after :
    (k s : Text) (c : ℕ) → any (λ a. a == c) k ≡ false → cut (k ++ c ∷ s) c ≡ (k, s, true)
unfolding cut
cut-after [] s c h = ground arith
cut-after (a ∷ k) s c h =
    let other : (a == c) ≡ false = ground arith in rw (other, cut-after k s c (ground arith)) refl
