-- ===== src/Claude/Forwarded.antt =====
-- Which provider variables reach a task's settings: all of the launching session's or none.
use c_squad.Json.{
  Json, string, object, Members, member_at, put, has_key, member_at-put, member_at-put_other,
}
use c_squad.Gitx.Texts.{cut_at}
use c_squad.Claude.Settings.{Machine}
use c_squad.Claude.Provider.{
  object_of, ambient_settings, is_provider_env, with_worktree, with_inbound, forwards, forward_env,
  is_chosen, with_forwarded, with_env, sort_texts, task_settings,
}
use c_squad.Base.{
  any, arith, Bool, true, false, ◌&&◌, ◌||◌, not, Option, none, some, List, [], ◌∷◌, ◌++◌, is_empty,
  ◌≡◌, refl, ap, sym, ◌∙◌, if◌then◌else◌, if-both, if-else, Bool-cases, Option-cases, inl, inr,
  Text, lit, text_eq, text_eq_iff,
}

-- What one entry of the environment gives a provider variable.
unfoldable pub one_given : Text × Text → Text → Option Json
one_given (name, v) k =
    if text_eq name k && is_provider_env k && not (is_empty v) then some (string v) else none

-- The first of two answers that there is.
unfoldable pub or_else : Option Json → Option Json → Option Json
or_else (some v) o = some v
or_else none o = o

-- What the environment gives a provider variable: its last value that is not empty.
unfoldable pub given : List Text → Text → Option Json
given [] k = none
given (kv ∷ env) k = or_else (given env k) (one_given (cut_at kv b'=') k)

or_else-none : (a : Option Json) → or_else a none ≡ a
unfolding or_else
or_else-none (some v) = refl
or_else-none none = refl

or_else_assoc : (a b c : Option Json) → or_else a (or_else b c) ≡ or_else (or_else a b) c
unfolding or_else
or_else_assoc (some v) b c = refl
or_else_assoc none b c = refl

-- Setting a key that is asked for, under two tests.
pass_same :
    (vars : Members) (k v : Text) (p e : Bool)
    → member_at (if p && not e && true then put vars k (string v) else vars) k
      ≡ or_else (if p && not e then some (string v) else none) (member_at vars k)
unfolding or_else
pass_same vars k v false e = refl
pass_same vars k v true true = refl
pass_same vars k v true false = member_at-put vars k (string v)

module _ (own vars : Members) (k name v : Text) where
  -- One pass of the loop leaves a key of the user's own settings as it is.
  pass_own :
      has_key own k ≡ true
      → member_at (if forwards own (name, v) then put vars name (string v) else vars) k
        ≡ member_at vars k
  unfolding forwards
  pass_own h = elim (Bool-cases (text_eq name k)) [
    | inl s ↦
        let off : forwards own (name, v) ≡ false =
          rw ((text_eq_iff name k).0 s, h) (ground arith) in
        rw off refl
    | inr d ↦
        if-both (λ m. member_at m k ≡ member_at vars k) (forwards own (name, v))
          (put vars name (string v)) vars (λ _. member_at-put_other vars name k (string v) d)
          (λ _. refl)
  ]

  -- It gives every other key what the entry gives it.
  pass_given :
      has_key own k ≡ false
      → member_at (if forwards own (name, v) then put vars name (string v) else vars) k
        ≡ or_else (one_given (name, v) k) (member_at vars k)
  unfolding forwards one_given or_else
  pass_given h = elim (Bool-cases (text_eq name k)) [
    | inl s ↦
        let e = (text_eq_iff name k).0 s in
        rw (s, e, h) (pass_same vars k v (is_provider_env k) (is_empty v))
    | inr d ↦ rw d (
        if-both (λ m. member_at m k ≡ member_at vars k) (forwards own (name, v))
          (put vars name (string v)) vars (λ _. member_at-put_other vars name k (string v) d)
          (λ _. refl))
  ]

module _ (own : Members) (k : Text) where
  own_kept :
      (env : List Text) (vars : Members) (ks : List Text)
      → has_key own k ≡ true
      → member_at (forward_env own env vars ks).0 k ≡ member_at vars k
  unfolding forward_env
  own_kept [] vars ks h = refl
  own_kept (kv ∷ env) vars ks h =
      own_kept env _ _ h ∙ pass_own own vars k (cut_at kv b'=').0 (cut_at kv b'=').1 h

  given_set :
      (env : List Text) (vars : Members) (ks : List Text)
      → has_key own k ≡ false
      → member_at (forward_env own env vars ks).0 k ≡ or_else (given env k) (member_at vars k)
  unfolding forward_env given or_else
  given_set [] vars ks h = refl
  given_set (kv ∷ env) vars ks h =
      given_set env _ _ h
      ∙ ap (or_else (given env k)) (pass_given own vars k (cut_at kv b'=').0 (cut_at kv b'=').1 h)
      ∙ or_else_assoc (given env k) (one_given (cut_at kv b'=') k) (member_at vars k)

-- The loop that starts from the user's own variables: theirs win.
forward_env-own :
    (own : Members) (env : List Text) (k : Text)
    → member_at (forward_env own env own []).0 k ≡ or_else (member_at own k) (given env k)
unfolding or_else has_key
forward_env-own own env k = elim (Option-cases (member_at own k)) [
  | inl e ↦ given_set own k env own [] (rw (e, has_key) refl) ∙ rw e (or_else-none (given env k))
  | inr (v, e) ↦ own_kept own k env own [] (rw (e, has_key) refl) ∙ rw e refl
]

not_added :
    (b : Bool) (ks : List Text) (n : Text)
    → is_empty (if b then ks ++ n ∷ [] else ks) ≡ true
    → (b ≡ false) × (is_empty ks ≡ true)
not_added false ks n h = (refl, h)
not_added true [] n h = cc
not_added true (k ∷ ks) n h = cc

-- If no key was forwarded, the variables are what they were.
none_forwarded :
    (own : Members) (env : List Text) (vars : Members) (ks : List Text)
    → is_empty (forward_env own env vars ks).1 ≡ true
    → (is_empty ks ≡ true) × ((forward_env own env vars ks).0 ≡ vars)
unfolding forward_env
none_forwarded own [] vars ks h = (h, refl)
none_forwarded own (kv ∷ env) vars ks h =
    let b = forwards own (cut_at kv b'=') in
    let (e, same) = none_forwarded own env _ _ h in
    let (off, empty) = not_added b ks (cut_at kv b'=').0 e in
    (empty, same ∙ if-else b (put vars (cut_at kv b'=').0 (string (cut_at kv b'=').1)) vars off)

-- The value that a variable has in the settings of a task.
unfoldable pub env_value : Members → Text → Option Json
env_value settings k = member_at (object_of settings (lit "env")) k

object_of-same :
    (m n : Members) (key : Text)
    → member_at m key ≡ member_at n key
    → object_of m key ≡ object_of n key
unfolding object_of
object_of-same m n key h = rw (h, object_of) refl

object_of-put : (m : Members) (key : Text) (o : Members) → object_of (put m key (object o)) key ≡ o
unfolding object_of
object_of-put m key o = rw (member_at-put m key (object o), object_of) refl

with_env-value :
    (user : Members) (ambient : List Members) (env : List Text) (settings : Members) (k : Text)
    → member_at settings (lit "env") ≡ member_at user (lit "env")
    → is_chosen user ambient ≡ false
    → env_value (with_env user ambient env settings).0 k ≡ or_else (env_value user k) (given env k)
unfolding with_env with_forwarded env_value
with_env-value user ambient env settings k h f =
    let own = object_of user (lit "env") in
    let vars = forward_env own env own [] in
    elim (Bool-cases (is_empty vars.1)) [
      | inl e ↦
          let same = (none_forwarded own env own [] e).1 in
          rw (f, e)
            (ap (λ o. member_at o k) (object_of-same settings user (lit "env") h ∙ sym same)
              ∙ forward_env-own own env k)
      | inr e ↦
          rw (f, e)
            (ap (λ o. member_at o k) (object_of-put settings (lit "env") vars.0)
              ∙ forward_env-own own env k)
    ]

module _ (user : Members) (k : Text) where
  keeps_worktree :
      (ambient : List Members) (in_place : Bool)
      → text_eq (lit "worktree") k ≡ false
      → member_at (with_worktree user ambient in_place user) k ≡ member_at user k
  unfolding with_worktree
  keeps_worktree ambient in_place h =
      let kept : (v : Json) → member_at (put user (lit "worktree") v) k ≡ member_at user k =
        λ v. member_at-put_other user (lit "worktree") k v h in
      let wt = object_of user (lit "worktree") in
      let chosen =
        has_key wt (lit "baseRef")
        || any (λ a. has_key (object_of a (lit "worktree")) (lit "baseRef")) ambient in
      elim (Bool-cases in_place) [
        | inl e ↦ rw e (kept _)
        | inr e ↦ rw e (elim (Bool-cases chosen) [ inl c ↦ rw c refl | inr c ↦ rw c (kept _) ])
      ]

  -- The keys that csquad sets beside the variables are two.
  keeps_base :
      (ambient : List Members) (in_place : Bool)
      → text_eq (lit "worktree") k ≡ false
      → text_eq (lit "crossSessionInbound") k ≡ false
      → member_at (with_inbound user (with_worktree user ambient in_place user)) k
        ≡ member_at user k
  unfolding with_inbound
  keeps_base ambient in_place h i =
      let base = keeps_worktree ambient in_place h in
      let inbound =
        member_at-put_other (with_worktree user ambient in_place user) (lit "crossSessionInbound") k
          (string (lit "accept")) i in
      elim (Bool-cases (has_key user (lit "crossSessionInbound"))) [
        | inl e ↦ rw e base
        | inr e ↦ rw e (inbound ∙ base)
      ]

with_env-other :
    (user : Members) (ambient : List Members) (env : List Text) (settings : Members) (k : Text)
    → text_eq (lit "env") k ≡ false
    → member_at (with_env user ambient env settings).0 k ≡ member_at settings k
unfolding with_env with_forwarded
with_env-other user ambient env settings k h =
    let own = object_of user (lit "env") in
    let vars = forward_env own env own [] in
    let put_env = member_at-put_other settings (lit "env") k (object vars.0) h in
    elim (Bool-cases (is_chosen user ambient)) [
      | inl e ↦ rw e refl
      | inr e ↦
          rw e (elim (Bool-cases (is_empty vars.1)) [ inl n ↦ rw n refl | inr n ↦ rw n put_env ])
    ]

chosen_env :
    (user : Members) (ambient : List Members) (env : List Text) (settings : Members)
    → member_at settings (lit "env") ≡ member_at user (lit "env")
    → is_chosen user ambient ≡ true
    → (member_at (with_env user ambient env settings).0 (lit "env") ≡ member_at user (lit "env"))
      × (sort_texts (with_env user ambient env settings).1 ≡ [])
unfolding with_env sort_texts
chosen_env user ambient env settings e h = rw h (e, refl)

env_kept :
    (user : Members) (ambient : List Members) (in_place : Bool)
    → member_at (with_inbound user (with_worktree user ambient in_place user)) (lit "env")
      ≡ member_at user (lit "env")
unfolding lit text_eq
env_kept user ambient in_place = keeps_base user (lit "env") ambient in_place refl refl

-- Where the user's settings or those that Claude Code reads for the session choose a provider, no
-- variable of the launching session is forwarded and the variables are the user's; where none does, a
-- variable has the value that the user's settings give it, or else, if it is a provider's, its last
-- value in the session's environment that is not empty. Either way, of the keys of the user's settings
-- only `worktree`, `crossSessionInbound` and `env` can change.
pub task_settings-IsAllOrNone :
    (c : Machine) (user : Members) (in_place : Bool) (cwd : Text)
    → (is_chosen user (ambient_settings c cwd) ≡ true
        → (member_at (task_settings c user in_place cwd).0 (lit "env") ≡ member_at user (lit "env"))
          × ((task_settings c user in_place cwd).1 ≡ []))
      × (is_chosen user (ambient_settings c cwd) ≡ false
          → (k : Text)
          → env_value (task_settings c user in_place cwd).0 k
            ≡ or_else (env_value user k) (given c.env k))
      × ((k : Text)
          → text_eq (lit "worktree") k ≡ false
          → text_eq (lit "crossSessionInbound") k ≡ false
          → text_eq (lit "env") k ≡ false
          → member_at (task_settings c user in_place cwd).0 k ≡ member_at user k)
unfolding task_settings
task_settings-IsAllOrNone c user in_place cwd =
    let ambient = ambient_settings c cwd in
    let e = env_kept user ambient in_place in
    (
      λ h. chosen_env user ambient c.env _ e h,
      λ h k. with_env-value user ambient c.env _ k e h,
      λ k h i j. with_env-other user ambient c.env _ k j ∙ keeps_base user k ambient in_place h i,
    )
