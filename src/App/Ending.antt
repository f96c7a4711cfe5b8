-- ===== src/App/Ending.antt =====
-- The loop of wait ends.
use c_squad.App.Waiting.{
  Look, Terms, Loop, Waited, Turned, ended, again, all_reported, grace_from, is_over, turn_end,
  turn_polled, turn, turned_on, wait_from,
}
use c_squad.Base.{
  ℕ, zero, suc, ◌+◌, ◌*◌, ◌≤◌, ◌≡◌, refl, true, false, ◌&&◌, ◌||◌, not, Bool-cases, inl, inr,
  Option, none, some, List, is_empty, leb, Text, arith,
}

-- What the loop sleeps at least, a millisecond.
abbrev pub tick : ℕ
tick = 1000000

unfoldable IsEnded : Turned → Type 0
IsEnded (ended r) = Unit
IsEnded (again l) = ⊥

ended_at : (r : Waited) → IsEnded (ended r)
unfolding IsEnded
ended_at r = tt

end-IsEnded :
    (p : Terms) (k : Look) (l : Loop) → leb p.deadline k.now ≡ true → IsEnded (turn_end p k l)
unfolding turn_end
end-IsEnded p k l h =
    let over =
      (not (is_empty l.events) && is_over (grace_from p k l) k.now) || all_reported l.watchers in
    elim (Bool-cases over) [ inl e ↦ rw e (ended_at _) | inr e ↦ rw (e, h) (ended_at _) ]

polled-IsEnded :
    (p : Terms) (k : Look) (l : Loop) (f : Option Waited × List (Text × ℕ))
    → leb p.deadline k.now ≡ true
    → IsEnded (turn_polled p k l f)
unfolding turn_polled
polled-IsEnded p k l (some r, fs) h = ended_at r
polled-IsEnded p k l (none, fs) h = end-IsEnded p k _ h

turn-IsEnded :
    (p : Terms) (k : Look) (l : Loop) → leb p.deadline k.now ≡ true → IsEnded (turn p k l)
unfolding turn
turn-IsEnded p k l h = polled-IsEnded p k _ _ h

late : (now deadline : ℕ) → leb deadline now ≡ false → deadline ≤ now → ⊥
late now deadline e h = ground arith

-- A turn that ends the wait or goes on before the deadline.
turn_on :
    (n : ℕ) (p : Terms) (looks : ℕ → Look) (i : ℕ) (t : Turned)
    → (leb p.deadline (looks i).now ≡ true → IsEnded t)
    → ((m : Loop)
        → leb p.deadline (looks i).now ≡ false
        → (r : Waited) × (wait_from n p looks (suc i) m ≡ some r))
    → (r : Waited) × (turned_on t (λ m. wait_from n p looks (suc i) m) ≡ some r)
unfolding turned_on IsEnded
turn_on n p looks i (ended r) h k = (r, refl)
turn_on n p looks i (again m) h k = elim (Bool-cases (leb p.deadline (looks i).now)) [
  | inl e ↦ absurd (h e)
  | inr e ↦ k m e
]

wait_from-Ends :
    (n : ℕ) (p : Terms) (looks : ℕ → Look) (i : ℕ) (l : Loop)
    → ((j : ℕ) → (looks j).now + tick ≤ (looks (suc j)).now)
    → p.deadline ≤ (looks i).now + n * tick
    → (r : Waited) × (wait_from (suc n) p looks i l ≡ some r)
unfolding wait_from
wait_from-Ends zero p looks i l ticks h =
    turn_on zero p looks i (turn p (looks i) l) (turn-IsEnded p (looks i) l)
      (λ m e. absurd (late (looks i).now p.deadline e (omega (arith, h))))
wait_from-Ends (suc n) p looks i l ticks h =
    turn_on (suc n) p looks i (turn p (looks i) l) (turn-IsEnded p (looks i) l)
      (λ m e. wait_from-Ends n p looks (suc i) m ticks (omega (arith, h, ticks i)))

-- The loop ends: where each turn comes a millisecond after the last at least, as the sleep makes it, the
-- turns that fit before the deadline and one more are enough.
pub wait_from-ends :
    (n : ℕ) (p : Terms) (looks : ℕ → Look) (l : Loop)
    → ((j : ℕ) → (looks j).now + tick ≤ (looks (suc j)).now)
    → p.deadline ≤ (looks 0).now + n * tick
    → (r : Waited) × (wait_from (suc n) p looks 0 l ≡ some r)
wait_from-ends n p looks l ticks h = wait_from-Ends n p looks 0 l ticks h
