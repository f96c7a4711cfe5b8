-- ===== src/Claude/Verified.antt =====
-- Which commands removing a Claude session runs.
use c_squad.Claude.Sessions.{Session, matched}
use c_squad.Claude.Remove.{
  Listed, listed, not_answering, other_error, Agent, asked_args, contains_path, forced, remove_at,
  remove_listed, remove_answered, remove,
}
use c_squad.Base.{
  true, false, Option, none, some, List, [], ◌∷◌, is_empty, All, ◌≡◌, ◌⊎◌, inl, inr, refl,
  Bool-cases, Text, lit,
}

-- The plain removal, or that with what its refusal asks for: then the session was listed, and its
-- worktree is one of those that were verified.
unfoldable pub IsVerified : Agent → Text → List Text → List Text → Type 0
IsVerified a id merged command =
    (command ≡ lit "rm" ∷ id ∷ [])
    ⊎ ((list : List Session) × (s : Session) × (a.list ≡ listed list)
        × (matched list id ≡ some s)
        × (is_empty s.cwd ≡ false)
        × (contains_path a merged s.cwd ≡ true)
        × (command ≡ lit "rm" ∷ id ∷ asked_args (a.run [] (lit "rm" ∷ id ∷ [])).0))

module _ (P : List Text → Type 0) (a : Agent) (id : Text) (merged : List Text) (cwd : Text) where
  forced-All :
      (out : Text)
      → P (lit "rm" ∷ id ∷ [])
      → (is_empty cwd ≡ false
          → contains_path a merged cwd ≡ true
          → P (lit "rm" ∷ id ∷ asked_args out))
      → All P (forced a id merged cwd out).0
  unfolding forced
  forced-All out p q = elim (Bool-cases (is_empty (asked_args out))) [
    | inl e ↦ rw e (p, tt)
    | inr e ↦ rw e (elim (Bool-cases (is_empty cwd)) [
      | inl f ↦ rw f (p, tt)
      | inr f ↦ rw f (elim (Bool-cases (contains_path a merged cwd)) [
        | inl g ↦ rw g (p, (q f g, tt))
        | inr g ↦ rw g (p, tt)
      ])
    ])
  ]

  remove_at-All :
      P (lit "rm" ∷ id ∷ [])
      → (is_empty cwd ≡ false
          → contains_path a merged cwd ≡ true
          → P (lit "rm" ∷ id ∷ asked_args (a.run [] (lit "rm" ∷ id ∷ [])).0))
      → All P (remove_at a id merged cwd).0
  unfolding remove_at
  remove_at-All p q = elim (Bool-cases (a.run [] (lit "rm" ∷ id ∷ [])).1) [
    | inl e ↦ rw e (forced-All _ p q)
    | inr e ↦ rw e (p, tt)
  ]

listed-IsVerified :
    (a : Agent) (id : Text) (merged : List Text) (list : List Session) (o : Option Session)
    → a.list ≡ listed list
    → matched list id ≡ o
    → All (IsVerified a id merged) (remove_listed a id merged o).0
unfolding remove_listed IsVerified
listed-IsVerified a id merged list none e h = tt
listed-IsVerified a id merged list (some s) e h =
    remove_at-All (IsVerified a id merged) a id merged s.cwd (inl refl)
      (λ f g. inr (list, s, e, h, f, g, refl))

answer-IsVerified :
    (a : Agent) (id : Text) (merged : List Text) (l : Listed)
    → a.list ≡ l
    → All (IsVerified a id merged) (remove_answered a id merged l).0
unfolding remove_answered IsVerified
answer-IsVerified a id merged (listed list) e =
    (listed-IsVerified a id merged list (matched list id) e refl)
answer-IsVerified a id merged (not_answering t) e = tt
answer-IsVerified a id merged (other_error t) e =
    remove_at-All (IsVerified a id merged) a id merged [] (inl refl) (λ f. absurd cc)

-- Removing a session runs only `claude rm` on it, and with the flags that a refusal asks for only where
-- the session was listed and its worktree is one of those that were verified to be merged.
pub remove-IsVerified :
    (a : Agent) (id : Text) (merged : List Text)
    → All (IsVerified a id merged) (remove a id merged).0
unfolding remove
remove-IsVerified a id merged = answer-IsVerified a id merged a.list refl
