-- ===== src/Codex/Config.antt =====
-- The configuration of thread options: what is written is read again.
use c_squad.Json.{
  Json, null, boolean, number, string, array, object, Members, no_members, member, member_at, put,
  has_key, member_at-put_other,
}
use c_squad.Codex.Options.{
  Codec, Options, Flag, config_flag, parsed, read_flag, read_value, or_text, text_of, set_config,
  set_option, go_on, parse_next, parse_from, print_value, config_args,
}
use c_squad.Base.{
  ◌≡◌, refl, sym, ap, ◌∙◌, Bool, true, false, inl, inr, Bool-cases, Option, none, some, List, ◌∷◌,
  ◌++◌, any, is_empty, ◌==◌, if◌then◌else◌, Text, lit, text_eq, not_same, cut, trim_space, subst,
  has_prefix, cut-after,
}

-- What encoding/json promises: a decoded value and a string are read back from what they are written
-- as, and a text that is not valid is not decoded.
unfoldable pub IsCodec : Codec → Type 0
IsCodec c =
    ((t : Text) (v : Json)
      → c.decode t ≡ some v
      → (u : Text) × (c.encode v ≡ some u) × (c.decode u ≡ some v))
    × ((s : Text) → (u : Text) × (c.encode (string s) ≡ some u) × (c.decode u ≡ some (string s)))
    × ((s : Text) → c.is_valid s ≡ false → c.decode s ≡ none)

unfoldable pub IsStored : Codec → Json → Type 0
IsStored c v = (raw : Text) × (read_value c raw ≡ v)

unfoldable pub IsKey : Text → Type 0
IsKey k = (is_empty k ≡ false) × (trim_space k ≡ k) × (any (λ a. a == b'=') k ≡ false)

unfoldable pub IsConfig : Codec → Members → Type 0
unfolding IsStored IsKey
IsConfig c no_members = Unit
IsConfig c (member k v m) = IsKey k × IsStored c v × (has_key m k ≡ false) × IsConfig c m

module _ (c : Codec) (h : IsCodec c) where
  read-string : (s : Text) → read_value c (print_value c (string s)) ≡ string s
  unfolding IsCodec read_value or_text print_value text_of
  read-string s = elim (Bool-cases (c.is_valid s)) [
    | inl e ↦ let (u, f, g) = h.1 s in rw (e, f, g) refl
    | inr e ↦ rw (e, h.2 s e) refl
  ]

  -- A value that was decoded and is written as JSON.
  read-encoded :
      (raw : Text) (v : Json) → c.decode raw ≡ some v → read_value c (text_of (c.encode v)) ≡ v
  unfolding IsCodec read_value or_text text_of
  read-encoded raw v e = let (u, f, g) = h.0 raw v e in rw (f, g) refl

  read-decoded :
      (raw : Text) (v : Json) → c.decode raw ≡ some v → read_value c (print_value c v) ≡ v
  unfolding print_value
  read-decoded raw null e = read-encoded raw null e
  read-decoded raw (boolean b) e = read-encoded raw (boolean b) e
  read-decoded raw (number n) e = read-encoded raw (number n) e
  read-decoded raw (string s) e = read-string s
  read-decoded raw (array l) e = read-encoded raw (array l) e
  read-decoded raw (object m) e = read-encoded raw (object m) e

  read-either :
      (raw : Text) (o : Option Json)
      → c.decode raw ≡ o
      → read_value c (print_value c (or_text o raw)) ≡ or_text o raw
  unfolding or_text
  read-either raw none e = read-string raw
  read-either raw (some v) e = read-decoded raw v e

  read-stored : (v : Json) → IsStored c v → read_value c (print_value c v) ≡ v
  unfolding IsStored read_value
  read-stored v (raw, e) =
      subst (λ w. read_value c (print_value c w) ≡ w) e (read-either raw (c.decode raw) refl)

  -- One entry of the configuration, read into options.
  set-config :
      (o : Options) (k : Text) (v : Json)
      → IsKey k
      → IsStored c v
      → set_option c o config_flag (k ++ b'=' ∷ print_value c v)
        ≡ parsed (record o { config = put o.config k v })
  unfolding set_option set_config IsKey
  set-config o k v (e, f, g) s =
      rw (cut-after k (print_value c v) b'=' g, f, e, read-stored v s) refl

-- The map with the members of another, in their order.
unfoldable pub put_all : Members → Members → Members
put_all n no_members = n
put_all n (member k v m) = put_all (put n k v) m

long-config : read_flag (lit "--config") ≡ some (config_flag, none)
unfolding read_flag lit text_eq has_prefix cut
long-config = refl

-- An option with its value, read.
pub option-read :
    (c : Codec) (o n : Options) (flag : Text) (f : Flag) (v : Text) (rest : List Text)
    → read_flag flag ≡ some (f, none)
    → set_option c o f v ≡ parsed n
    → parse_from c o (flag ∷ v ∷ rest) ≡ parse_from c n rest
unfolding parse_from parse_next go_on
option-read c o n flag f v rest e s = rw (e, s) refl

pub config-read :
    (c : Codec) (h : IsCodec c) (m : Members) (o : Options)
    → IsConfig c m
    → parse_from c o (config_args c m) ≡ parsed (record o { config = put_all o.config m })
unfolding config_args put_all IsConfig parse_from
config-read c h no_members o w = refl
config-read c h (member k v m) o (key, s, new, w) =
    option-read c o _ (lit "--config") config_flag _ (config_args c m) long-config
      (set-config c h o k v key s)
    ∙ config-read c h m _ w

-- Keys that are new stand at the end.
unfoldable pub joined : Members → Members → Members
joined no_members n = n
joined (member k v m) n = member k v (joined m n)

joined_none : (m : Members) → joined m no_members ≡ m
unfolding joined
joined_none no_members = refl
joined_none (member k v m) = ap (member k v) (joined_none m)

joined_assoc : (a b c : Members) → joined (joined a b) c ≡ joined a (joined b c)
unfolding joined
joined_assoc no_members b c = refl
joined_assoc (member k v m) b c = ap (member k v) (joined_assoc m b c)

-- A key that is not in a map is not its first, and not in the rest.
not_first :
    (key k : Text) (w : Json) (m : Members)
    → has_key (member key w m) k ≡ false
    → (text_eq key k ≡ false) × (has_key m k ≡ false)
unfolding has_key member_at
not_first key k w m h = elim (Bool-cases (text_eq key k)) [
  | inl e ↦ absurd (there (text_eq key k) e h)
  | inr e ↦ (e, sym (rw (e, has_key) refl) ∙ h)
]
  where
    there :
        (b : Bool)
        → b ≡ true
        → elim (if b then some w else member_at m k) [ none ↦ false | some _ ↦ true ] ≡ false
        → ⊥
    there true e f = cc
    there false e f = cc

put-new :
    (m : Members) (k : Text) (v : Json)
    → has_key m k ≡ false
    → put m k v ≡ joined m (member k v no_members)
unfolding put joined
put-new no_members k v h = refl
put-new (member key w m) k v h =
    let (e, f) = not_first key k w m h in rw e (ap (member key w) (put-new m k v f))

pub has_key-put_other :
    (m : Members) (j k : Text) (v : Json)
    → text_eq j k ≡ false
    → has_key (put m j v) k ≡ has_key m k
unfolding has_key
has_key-put_other m j k v h = rw (member_at-put_other m j k v h, has_key) refl

-- No key of the second map is one of the first.
unfoldable pub Apart : Members → Members → Type 0
Apart n no_members = Unit
Apart n (member k v m) = (has_key n k ≡ false) × Apart n m

Apart-put :
    (n m : Members) (k : Text) (v : Json) → Apart n m → has_key m k ≡ false → Apart (put n k v) m
unfolding Apart
Apart-put n no_members k v a h = tt
Apart-put n (member j w m) k v (f, a) h =
    let (other, rest) = not_first j k w m h in
    (has_key-put_other n k j v (not_same j k other) ∙ f, Apart-put n m k v a rest)

pub put_all-joined :
    (c : Codec) (m n : Members) → IsConfig c m → Apart n m → put_all n m ≡ joined n m
unfolding put_all IsConfig Apart joined
put_all-joined c no_members n w a = sym (joined_none n)
put_all-joined c (member k v m) n (key, s, new, w) (f, a) =
    put_all-joined c m (put n k v) w (Apart-put n m k v a new)
    ∙ ap (λ x. joined x m) (put-new n k v f)
    ∙ joined_assoc n (member k v no_members) m

pub Apart-none : (m : Members) → Apart no_members m
unfolding Apart has_key member_at
Apart-none no_members = tt
Apart-none (member k v m) = (refl, Apart-none m)
