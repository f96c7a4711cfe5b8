-- ===== src/Codex/Written.antt =====
-- Thread options that are written are read again as they were, and all that are read can be written.
use c_squad.Json.{Json, Members, no_members, member, member_at, put, has_key}
use c_squad.Codex.Options.{
  Codec, Options, no_options, Flag, model_flag, effort_flag, sandbox_flag, approval_flag,
  config_flag, OptionResult, parsed, refused, sandboxes, approvals, efforts, is_one_of, read_flag,
  set_config, set_option, go_on, parse_last, parse_next, parse_from, parse_options, add_flag,
  print_options,
}
use c_squad.Base.{
  ◌≡◌, refl, sym, ap, ◌∙◌, true, false, ◌||◌, not, ◌⊎◌, inl, inr, Bool-cases, Option, none, some,
  List, [], ◌∷◌, is_empty, ◌==◌, Text, lit, text_eq, text_eq_iff, not_same, cut, trim_space,
  trim_space-trim_space, trim_space-any, subst, has_prefix, cut-before, arith,
}
use c_squad.Codex.Config.{
  IsCodec, IsStored, IsKey, IsConfig, joined, option-read, config-read, put_all-joined, Apart-none,
  has_key-put_other,
}

IsWritten : Codec → Options → Type 0
unfolding IsConfig
IsWritten c o =
    ((is_empty o.model ≡ true) ⊎ (is_empty (trim_space o.model) ≡ false))
    × ((is_empty o.effort ≡ true) ⊎ (is_one_of o.effort efforts ≡ true))
    × ((is_empty o.sandbox ≡ true) ⊎ (is_one_of o.sandbox sandboxes ≡ true))
    × ((is_empty o.approval ≡ true) ⊎ (is_one_of o.approval approvals ≡ true))
    × IsConfig c o.config

-- An option that may be empty, read: then it is not written.
flag-read :
    (c : Codec) (o n : Options) (flag : Text) (f : Flag) (v : Text) (rest : List Text)
    → read_flag flag ≡ some (f, none)
    → (is_empty v ≡ true → o ≡ n)
    → (is_empty v ≡ false → set_option c o f v ≡ parsed n)
    → parse_from c o (add_flag flag v rest) ≡ parse_from c n rest
unfolding add_flag
flag-read c o n flag f v rest e z s = elim (Bool-cases (is_empty v)) [
  | inl t ↦ rw t (ap (λ x. parse_from c x rest) (z t))
  | inr t ↦ rw t (option-read c o n flag f v rest e (s t))
]

no_text : (v : Text) → is_empty v ≡ true → [] ≡ v
no_text [] h = refl
no_text (a ∷ v) h = cc

read_model : read_flag (lit "--model") ≡ some (model_flag, none)
unfolding read_flag lit text_eq has_prefix cut
read_model = refl

read_effort : read_flag (lit "--effort") ≡ some (effort_flag, none)
unfolding read_flag lit text_eq has_prefix cut
read_effort = refl

read_sandbox : read_flag (lit "--sandbox") ≡ some (sandbox_flag, none)
unfolding read_flag lit text_eq has_prefix cut
read_sandbox = refl

read_approval : read_flag (lit "--ask-for-approval") ≡ some (approval_flag, none)
unfolding read_flag lit text_eq has_prefix cut
read_approval = refl

-- A value that is empty or passes a test passes it where it is not empty.
passes_test : (v : Text) (P : Type 0) → (is_empty v ≡ true) ⊎ P → is_empty v ≡ false → P
passes_test v P (inl e) h = absurd cc
passes_test v P (inr e) h = e

module _ (c : Codec) (h : IsCodec c) (o : Options) where
  with_model : Options
  with_model = record no_options { model = o.model }

  with_effort : Options
  unfolding with_model
  with_effort = record with_model { effort = o.effort }

  with_sandbox : Options
  unfolding with_effort
  with_sandbox = record with_effort { sandbox = o.sandbox }

  with_approval : Options
  unfolding with_sandbox
  with_approval = record with_sandbox { approval = o.approval }

  flags-read :
      (rest : List Text)
      → IsWritten c o
      → parse_from c no_options (
          add_flag (lit "--model") o.model (
            add_flag (lit "--effort") o.effort (
              add_flag
                (lit "--sandbox")
                o.sandbox
                (add_flag (lit "--ask-for-approval") o.approval rest))))
        ≡ parse_from c with_approval rest
  unfolding IsWritten with_approval set_option
  flags-read rest (m, e, s, a, w) =
      flag-read c no_options with_model (lit "--model") model_flag o.model _ read_model
        (λ t. ap (λ x. record no_options { model = x }) (no_text o.model t))
        (λ t. rw (passes_test o.model _ m t) refl)
      ∙ flag-read c with_model with_effort (lit "--effort") effort_flag o.effort _ read_effort
          (λ t. ap (λ x. record with_model { effort = x }) (no_text o.effort t))
          (λ t. rw (passes_test o.effort _ e t) refl)
      ∙ flag-read c with_effort with_sandbox (lit "--sandbox") sandbox_flag o.sandbox _ read_sandbox
          (λ t. ap (λ x. record with_effort { sandbox = x }) (no_text o.sandbox t))
          (λ t. rw (passes_test o.sandbox _ s t) refl)
      ∙ flag-read c with_sandbox with_approval (lit "--ask-for-approval") approval_flag o.approval
          rest read_approval
          (λ t. ap (λ x. record with_sandbox { approval = x }) (no_text o.approval t))
          (λ t. rw (passes_test o.approval _ a t) refl)

-- The written form of options is read as these options.
printed-read :
    (c : Codec) (h : IsCodec c) (o : Options)
    → IsWritten c o
    → parse_options c (print_options c o) ≡ parsed o
unfolding parse_options print_options IsWritten with_approval joined
printed-read c h o w =
    flags-read c h o _ w
    ∙ config-read c h o.config _ w.4
    ∙ ap (λ m. parsed (record o { config = m }))
        (put_all-joined c o.config no_members w.4 (Apart-none o.config))

put-IsConfig :
    (c : Codec) (m : Members) (k : Text) (v : Json)
    → IsConfig c m
    → IsKey k
    → IsStored c v
    → IsConfig c (put m k v)
unfolding put IsConfig has_key member_at
put-IsConfig c no_members k v w key s = (key, s, refl, tt)
put-IsConfig c (member j u m) k v (jkey, t, new, w) key s = elim (Bool-cases (text_eq j k)) [
  | inl e ↦ rw e (key, s, sym (ap (has_key m) ((text_eq_iff j k).0 e)) ∙ new, w)
  | inr e ↦
      rw e (jkey, t, has_key-put_other m k j v (not_same j k e) ∙ new, put-IsConfig c m k v w key s)
]

-- A result that is an error, or options that can be written.
unfoldable IsFine : Codec → OptionResult → Type 0
unfolding IsWritten
IsFine c (refused _) = Unit
IsFine c (parsed o) = IsWritten c o

cut-IsFine :
    (c : Codec) (o : Options) (v : Text) → IsWritten c o → IsFine c (set_config c o v (cut v b'='))
unfolding set_config IsFine IsWritten IsKey IsStored
cut-IsFine c o v (m, e, s, a, w) =
    let key = trim_space (cut v b'=').0 in
    let no_sign = trim_space-any (λ x. x == b'=') (cut v b'=').0 (cut-before v b'=') in
    elim (Bool-cases (not (cut v b'=').2 || is_empty key)) [
      | inl f ↦ rw f tt
      | inr f ↦ rw f (
        m,
        e,
        s,
        a,
        put-IsConfig c o.config key _ w
            (ground arith, trim_space-trim_space (cut v b'=').0, no_sign) ((cut v b'=').1, refl),
      )
    ]

set_option-IsFine :
    (c : Codec) (o : Options) (f : Flag) (v : Text) → IsWritten c o → IsFine c (set_option c o f v)
unfolding set_option IsFine IsWritten
set_option-IsFine c o model_flag v (m, e, s, a, w) = elim (Bool-cases (is_empty (trim_space v))) [
  | inl t ↦ rw t tt
  | inr t ↦ rw t (inr t, e, s, a, w)
]
set_option-IsFine c o effort_flag v (m, e, s, a, w) = elim (Bool-cases (is_one_of v efforts)) [
  | inl t ↦ rw t (m, inr t, s, a, w)
  | inr t ↦ rw t tt
]
set_option-IsFine c o sandbox_flag v (m, e, s, a, w) = elim (Bool-cases (is_one_of v sandboxes)) [
  | inl t ↦ rw t (m, e, inr t, a, w)
  | inr t ↦ rw t tt
]
set_option-IsFine c o approval_flag v (m, e, s, a, w) = elim (Bool-cases (is_one_of v approvals)) [
  | inl t ↦ rw t (m, e, s, inr t, w)
  | inr t ↦ rw t tt
]
set_option-IsFine c o config_flag v w = cut-IsFine c o v w

go_on-IsFine :
    (c : Codec) (r : OptionResult) (f : Options → OptionResult)
    → IsFine c r
    → ((n : Options) → IsWritten c n → IsFine c (f n))
    → IsFine c (go_on r f)
unfolding go_on IsFine
go_on-IsFine c (parsed o) f h k = k o h
go_on-IsFine c (refused e) f h k = tt

last-IsFine :
    (c : Codec) (o : Options) (a : Text) (r : Option (Flag × Option Text))
    → IsWritten c o
    → IsFine c (parse_last c o a r)
unfolding parse_last IsFine
last-IsFine c o a none w = tt
last-IsFine c o a (some (f, none)) w = tt
last-IsFine c o a (some (f, some v)) w = set_option-IsFine c o f v w

next-IsFine :
    (c : Codec) (o : Options) (a b : Text) (r : Option (Flag × Option Text))
    (behind with_it : Options → OptionResult)
    → IsWritten c o
    → ((n : Options) → IsWritten c n → IsFine c (behind n))
    → ((n : Options) → IsWritten c n → IsFine c (with_it n))
    → IsFine c (parse_next c o a b r behind with_it)
unfolding parse_next IsFine
next-IsFine c o a b none behind with_it w h k = tt
next-IsFine c o a b (some (f, none)) behind with_it w h k =
    go_on-IsFine c (set_option c o f b) behind (set_option-IsFine c o f b w) h
next-IsFine c o a b (some (f, some v)) behind with_it w h k =
    go_on-IsFine c (set_option c o f v) with_it (set_option-IsFine c o f v w) k

parse_from-IsFine :
    (c : Codec) (args : List Text) (o : Options) → IsWritten c o → IsFine c (parse_from c o args)
unfolding parse_from IsFine
parse_from-IsFine c [] o w = w
parse_from-IsFine c (a ∷ []) o w = last-IsFine c o a (read_flag a) w
parse_from-IsFine c (a ∷ b ∷ args) o w =
    next-IsFine c o a b (read_flag a) _ _ w (λ n v. parse_from-IsFine c args n v)
      (λ n v. parse_from-IsFine c (b ∷ args) n v)

parse_options-IsFine : (c : Codec) (args : List Text) → IsFine c (parse_options c args)
unfolding parse_options IsWritten IsConfig
parse_options-IsFine c args =
    parse_from-IsFine c args no_options (inl refl, inl refl, inl refl, inl refl, tt)

-- Options that were read from a command line are the same when they are written in the stored form and
-- read again, where encoding/json reads back what it writes.
pub parse_options-print_options :
    (c : Codec) (args : List Text) (o : Options)
    → IsCodec c
    → parse_options c args ≡ parsed o
    → parse_options c (print_options c o) ≡ parsed o
unfolding IsFine
parse_options-print_options c args o h e =
    printed-read c h o (subst (IsFine c) e (parse_options-IsFine c args))
