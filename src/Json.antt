-- ===== src/Json.antt =====
-- Decoded JSON, what encoding/json gives for an `any`, and maps with text keys (`map[string]any`).
use c_squad.Base.{
  ◌≡◌, refl, Bool, true, false, Option, none, some, List, [], ◌∷◌, if◌then◌else◌, Text, text_eq,
  text_eq_iff, Bool-cases, inl, inr, ap,
}

mutual
  -- A number is kept as it is written.
  pub data Json : Type 0 where
    null : Json
    boolean : Bool → Json
    number : Text → Json
    string : Text → Json
    array : Elements → Json
    object : Members → Json

  pub data Elements : Type 0 where
    no_elements : Elements
    element : Json → Elements → Elements

  -- The members of an object: the first with a key is its value.
  pub data Members : Type 0 where
    no_members : Members
    member : Text → Json → Members → Members

-- `m[k]`, `none` where the key is missing.
unfoldable pub member_at : Members → Text → Option Json
member_at no_members k = none
member_at (member key v m) k = if text_eq key k then some v else member_at m k

-- `m[k] = v`: the value of the key is replaced where it stands.
unfoldable pub put : Members → Text → Json → Members
put no_members k v = member k v no_members
put (member key w m) k v = if text_eq key k then member k v m else member key w (put m k v)

unfoldable pub has_key : Members → Text → Bool
has_key m k = elim (member_at m k) [ none ↦ false | some _ ↦ true ]

unfoldable pub keys : Members → List Text
keys no_members = []
keys (member key _ m) = key ∷ keys m

-- `append` of one value
unfoldable pub appended : Elements → Json → Elements
appended no_elements v = element v no_elements
appended (element w l) v = element w (appended l v)

-- The characters of a key decide a test on it.
same_key : (k : Text) → text_eq k k ≡ true
same_key k = (text_eq_iff k k).1 refl

pub member_at-put : (m : Members) (k : Text) (v : Json) → member_at (put m k v) k ≡ some v
unfolding member_at put
member_at-put no_members k v = rw (same_key k) refl
member_at-put (member key w m) k v = elim (Bool-cases (text_eq key k)) [
  | inl e ↦ rw (e, same_key k) refl
  | inr e ↦ rw (e, e) (member_at-put m k v)
]

-- A key that is another keeps its value.
pub member_at-put_other :
    (m : Members) (j k : Text) (v : Json)
    → text_eq j k ≡ false
    → member_at (put m j v) k ≡ member_at m k
unfolding member_at put
member_at-put_other no_members j k v h = rw h refl
member_at-put_other (member key w m) j k v h = elim (Bool-cases (text_eq key j)) [
  | inl e ↦ let d : text_eq key k ≡ false = rw ((text_eq_iff key j).0 e) h in rw (e, h, d) refl
  | inr e ↦ rw e (ap (λ o. if text_eq key k then some w else o) (member_at-put_other m j k v h))
]
