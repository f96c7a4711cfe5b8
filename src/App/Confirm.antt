-- ===== src/App/Confirm.antt =====
-- What `csquad wait` reports was seen on two polls in a row.
use c_squad.App.Wait.{Watched, Watch, watched_eq, report, poll, poll_inited, settled}
use c_squad.Base.{
  ◌≡◌, ◌≢◌, ◌↔◌, ◌⊎◌, refl, sym, ◌∙◌, inl, inr, true, false, Option, none, some, arith, Bool-cases,
  Text, ap, subst,
}

watched_eq_iff : (a b : Watched) → (watched_eq a b ≡ true) ↔ (a ≡ b)
unfolding watched_eq
watched_eq_iff a b = ground arith

not_same : (a b : Watched) → a ≢ b → watched_eq a b ≡ false
not_same a b n = elim (Bool-cases (watched_eq a b)) [
  | inl e ↦ absurd (n ((watched_eq_iff a b).0 e))
  | inr e ↦ e
]

not_same_of : (a b : Watched) → watched_eq a b ≡ false → a ≢ b
not_same_of a b e q = let f = (watched_eq_iff a b).1 q in cc

-- Between polls, a task that is watched either shows the state that was settled on, or was seen once in
-- another one.
abbrev pub IsSettling : Watch → Type 0
IsSettling w =
    ((w.count ≡ 0) × (w.cand ≡ w.state)) ⊎ ((w.count ≡ 1) × (w.cand ≢ w.state) × (w.inited ≡ true))

-- A poll in the state that was settled on forgets any other.
poll_same :
    (w : Watch) (s : Watched)
    → s ≡ w.state
    → poll_inited true w s ≡ (record w { cand = s; count = 0 }, none)
unfolding poll_inited
poll_same w s e = rw ((watched_eq_iff s w.state).1 e)

poll_other :
    (w : Watch) (s : Watched)
    → s ≢ w.state
    → s ≢ w.cand
    → poll_inited true w s ≡ (record w { cand = s; count = 1 }, none)
unfolding poll_inited
poll_other w s n m = rw (not_same s w.state n, not_same s w.cand m)

poll_again :
    (w : Watch) (s : Watched)
    → s ≢ w.state
    → s ≡ w.cand
    → w.count ≡ 1
    → poll_inited true w s ≡ settled (record w { state = s; cand = s; count = 0 }) (report s)
unfolding poll_inited
poll_again w s n e c = rw (not_same s w.state n, (watched_eq_iff s w.cand).1 e, c)

settled-IsSettling :
    (w : Watch) (e : Option Text) → w.count ≡ 0 → w.cand ≡ w.state → IsSettling (settled w e).0
settled-IsSettling w none c e = inl (c, e)
settled-IsSettling w (some text) c e = inl (c, e)

-- What a poll of a task that is watched does: the state that was settled on forgets any other, a new one
-- is remembered, and one that is seen again is settled on.
pub data Polled (w : Watch) (s : Watched) (r : Watch × Option Text) : Type 0 where
  same : s ≡ w.state → r ≡ (record w { cand = s; count = 0 }, none) → Polled w s r
  other : s ≢ w.state → r ≡ (record w { cand = s; count = 1 }, none) → Polled w s r
  again :
      s ≢ w.state
      → s ≡ w.cand
      → w.count ≡ 1
      → r ≡ settled (record w { state = s; cand = s; count = 0 }) (report s)
      → Polled w s r

poll_inited-Polled : (w : Watch) (s : Watched) → IsSettling w → Polled w s (poll_inited true w s)
poll_inited-Polled w s h = elim (Bool-cases (watched_eq s w.state)) [
  | inl e ↦ let q = (watched_eq_iff s w.state).0 e in same q (poll_same w s q)
  | inr e ↦
      let n = not_same_of s w.state e in
      elim (Bool-cases (watched_eq s w.cand)) [
        | inl f ↦
            let q = (watched_eq_iff s w.cand).0 f in
            elim h [
              | inl (c, k) ↦ absurd (n (q ∙ k))
              | inr (c, k, i) ↦ again n q c (poll_again w s n q c)
            ]
        | inr f ↦ other n (poll_other w s n (not_same_of s w.cand f))
      ]
]

poll_watching :
    (w : Watch) (s : Watched) → w.inited ≡ true → w.done ≡ false → poll w s ≡ poll_inited true w s
unfolding poll
poll_watching w s i d = rw (d, i)

poll-Polled :
    (w : Watch) (s : Watched)
    → IsSettling w
    → w.inited ≡ true
    → w.done ≡ false
    → Polled w s (poll w s)
poll-Polled w s h i d = rw (poll_watching w s i d) (poll_inited-Polled w s h)

settled_event : (w : Watch) (e : Option Text) → (settled w e).1 ≡ e
settled_event w none = refl
settled_event w (some text) = refl

-- An event of a task that is watched is of the state that was seen once before.
fires :
    (w : Watch) (s : Watched) (text : Text) (r : Watch × Option Text)
    → Polled w s r
    → r.1 ≡ some text
    → (w.count ≡ 1) × (s ≡ w.cand) × (s ≢ w.state) × (report s ≡ some text)
fires w s text r (same e q) h = cc
fires w s text r (other n q) h = cc
fires w s text r (again n e c q) h =
    (c, e, n, sym (settled_event _ (report s)) ∙ ap (λ x. x.1) (sym q) ∙ h)

-- What a poll without an event leaves.
pub record Quiet (w : Watch) (s : Watched) (w' : Watch) : Type 0 where
  pub settling : IsSettling w'
  pub watching : w'.inited ≡ true
  pub unreported : w'.done ≡ false
  pub once : w'.count ≡ 1 → (w'.cand ≡ s) × (w'.state ≡ w.state)

silent :
    (w : Watch) (s : Watched) (r : Watch × Option Text)
    → w.inited ≡ true
    → w.done ≡ false
    → Polled w s r
    → r.1 ≡ none
    → Quiet w s r.0
silent w s r i d (same e q) h =
    subst (λ x. Quiet w s x.0) (sym q)
      (record {
        settling = inl (refl, e);
        watching = i;
        unreported = d;
        once = λ c. absurd (omega (arith, c));
      })
silent w s r i d (other n q) h =
    subst (λ x. Quiet w s x.0) (sym q)
      (record {
        settling = inr (refl, n, i);
        watching = i;
        unreported = d;
        once = λ c. (refl, refl);
      })
silent w s r i d (again n e c q) h =
    let none_said =
      sym (settled_event (record w { state = s; cand = s; count = 0 }) (report s))
      ∙ ap (λ x. x.1) (sym q)
      ∙ h in
    subst (λ x. Quiet w s x.0)
      (sym (q ∙ ap (settled (record w { state = s; cand = s; count = 0 })) none_said))
      (record {
        settling = inl (refl, refl);
        watching = i;
        unreported = d;
        once = λ c. absurd (omega (arith, c));
      })

-- A change that wait reports was seen on two polls in a row, differs from the state that was settled on
-- before, and is a state that wait exits for.
pub poll_confirmed :
    (w : Watch) (a b : Watched) (text : Text)
    → IsSettling w
    → w.inited ≡ true
    → w.done ≡ false
    → (poll w a).1 ≡ none
    → (poll (poll w a).0 b).1 ≡ some text
    → (a ≡ b) × (b ≢ w.state) × (report b ≡ some text)
poll_confirmed w a b text h i d q r =
    let w' = (poll w a).0 in
    let k = silent w a (poll w a) i d (poll-Polled w a h i d) q in
    let (c, e, n, t) = fires w' b text _ (poll-Polled w' b k.settling k.watching k.unreported) r in
    let (f, g) = k.once c in (sym f ∙ sym e, λ x. n (x ∙ sym g), t)

fired :
    (w : Watch) (s : Watched) (text : Text)
    → w.inited ≡ true
    → w.done ≡ false
    → s ≢ w.state
    → report s ≡ some text
    → (poll (record w { cand = s; count = 1 }) s).1 ≡ some text
fired w s text i d n t =
    let w' = record w { cand = s; count = 1 } in
    ap (λ x. x.1) (poll_watching w' s i d ∙ poll_again w' s n refl refl)
    ∙ settled_event (record w { state = s; cand = s; count = 0 }) (report s)
    ∙ t

-- The first poll in a new state is silent, and the second one in it reports it.
pub two_polls :
    (w : Watch) (s : Watched) (text : Text)
    → IsSettling w
    → w.inited ≡ true
    → w.done ≡ false
    → w.count ≡ 0
    → s ≢ w.state
    → report s ≡ some text
    → ((poll w s).1 ≡ none) × ((poll (poll w s).0 s).1 ≡ some text)
two_polls w s text h i d c n t = elim (poll-Polled w s h i d) [
  | same e q ↦ absurd (n e)
  | again m e k q ↦ absurd (omega (arith, c, k))
  | other m q ↦
      (ap (λ x. x.1) q, subst (λ x. (poll x.0 s).1 ≡ some text) (sym q) (fired w s text i d m t))
]
