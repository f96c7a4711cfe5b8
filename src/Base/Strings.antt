-- ===== src/Base/Strings.antt =====
-- Go strings as lists of characters (code points), and the functions of `strings` and `strconv`
-- that the program calls.
use Prim.Native.Nat.{ℕ, zero, suc, ◌+◌, ◌/◌, ◌%◌}
use Prim.Native.Char.{code}
use Prim.Native.String.{String}
use mathlib.Core.Path.{◌≡◌, refl, sym}
use mathlib.Core.Logic.{◌↔◌, inl, inr}
use mathlib.Core.Bool.{Bool, true, false, ◌&&◌, ◌||◌}
use mathlib.Core.List.{List, [], ◌∷◌, ◌++◌, reverse}
use native.Mathlib.Omega.{arith}
use c_squad.Base.Tests.{◌==◌, ltb, leb, if◌then◌else◌, Bool-cases}
use c_squad.Base.Lists.{is_empty}

abbrev pub Text : Type 0
Text = List ℕ

-- The characters of a literal.
unfoldable pub lit : String → Text
lit String.[] = []
lit (String.◌∷◌ c s) = code c ∷ lit s

unfoldable pub text_eq : Text → Text → Bool
text_eq [] [] = true
text_eq [] (_ ∷ _) = false
text_eq (_ ∷ _) [] = false
text_eq (a ∷ s) (b ∷ t) = a == b && text_eq s t

pub text_eq_iff : (s t : Text) → (text_eq s t ≡ true) ↔ (s ≡ t)
unfolding text_eq
text_eq_iff [] [] = (λ _. refl, λ _. refl)
text_eq_iff [] (b ∷ t) = (λ e. cc, λ e. cc)
text_eq_iff (a ∷ s) [] = (λ e. cc, λ e. cc)
text_eq_iff (a ∷ s) (b ∷ t) = ground (arith, text_eq_iff s t)

pub not_same : (a b : Text) → text_eq a b ≡ false → text_eq b a ≡ false
not_same a b h = elim (Bool-cases (text_eq b a)) [
  | inl e ↦
      let same : text_eq a b ≡ true = (text_eq_iff a b).1 (sym ((text_eq_iff b a).0 e)) in absurd cc
  | inr e ↦ e
]

abbrev pub texts_eq : List Text → List Text → Bool
texts_eq [] [] = true
texts_eq [] (_ ∷ _) = false
texts_eq (_ ∷ _) [] = false
texts_eq (a ∷ s) (b ∷ t) = text_eq a b && texts_eq s t

-- strings.HasPrefix
unfoldable pub has_prefix : Text → Text → Bool
has_prefix s [] = true
has_prefix [] (_ ∷ _) = false
has_prefix (a ∷ s) (b ∷ t) = a == b && has_prefix s t

-- strconv.Itoa of a number that is not negative: the digits, least significant first on the way in.
unfoldable pub digits_from : ℕ → ℕ → Text → Text
digits_from zero n acc = acc
digits_from (suc fuel) n acc =
    let rest = digits_from fuel (n / 10) ((b'0' + n % 10) ∷ acc) in
    if ltb n 10 then (b'0' + n) ∷ acc else rest

unfoldable pub itoa : ℕ → Text
unfolding digits_from
itoa n = digits_from (suc n) n []

-- strings.Join
unfoldable pub join : List Text → Text → Text
join [] sep = []
join (s ∷ []) sep = s
join (s ∷ t ∷ r) sep = s ++ sep ++ join (t ∷ r) sep

-- unicode.IsSpace
unfoldable pub is_space : ℕ → Bool
is_space c =
    (leb 9 c && leb c 13)
    || c == 32
    || c == 0x85
    || c == 0xa0
    || c == 0x1680
    || (leb 0x2000 c && leb c 0x200a)
    || c == 0x2028
    || c == 0x2029
    || c == 0x202f
    || c == 0x205f
    || c == 0x3000

unfoldable pub trim_left : Text → Text
unfolding is_space
trim_left [] = []
trim_left (c ∷ s) = if is_space c then trim_left s else c ∷ s

-- strings.TrimSpace
unfoldable pub trim_space : Text → Text
unfolding trim_left
trim_space s = reverse (trim_left (reverse (trim_left s)))

-- strings.Fields: the word in progress is kept reversed.
fields_from : Text → Text → List Text
unfolding is_space
fields_from word [] = if is_empty word then [] else reverse word ∷ []
fields_from word (c ∷ s) =
    let rest = fields_from (if is_space c then [] else c ∷ word) s in
    if is_space c && (if is_empty word then false else true) then reverse word ∷ rest else rest

unfoldable pub fields : Text → List Text
unfolding fields_from
fields s = fields_from [] s

-- strings.ReplaceAll of one character by a text.
unfoldable pub replace_all : Text → ℕ → Text → Text
replace_all [] c by = []
replace_all (a ∷ s) c by = let rest = replace_all s c by in if a == c then by ++ rest else a ∷ rest

-- strings.Cut at one character: what is before it, what is after it, and whether it was there.
unfoldable pub cut : Text → ℕ → Text × Text × Bool
cut [] c = ([], [], false)
cut (a ∷ s) c =
    let (before, after, found) = cut s c in
    if a == c then ([], s, true) else (a ∷ before, after, found)

itoa_test : itoa 1207 ≡ lit "1207"
unfolding itoa lit
itoa_test = refl

trim_space_test : trim_space (lit " a b ") ≡ lit "a b"
unfolding trim_space lit
trim_space_test = refl

fields_test : fields (lit " ab  c ") ≡ lit "ab" ∷ lit "c" ∷ []
unfolding fields lit
fields_test = refl

cut_test : cut (lit "cmd:a:b") b':' ≡ (lit "cmd", lit "a:b", true)
unfolding cut lit
cut_test = refl
