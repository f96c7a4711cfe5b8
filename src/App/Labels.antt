-- ===== src/App/Labels.antt =====
-- Reading a task's label (`ParseLabel` of internal/app/app.go).
use c_squad.Task.{Task, label}
use c_squad.Base.{
  ℕ, zero, suc, ◌+◌, ◌-◌, ◌*◌, ◌/◌, ◌%◌, ◌^◌, ◌<◌, ◌≡◌, refl, ap, ◌∙◌, inl, inr, Bool, true, false,
  Bool-cases, ◌&&◌, ◌||◌, not, Option, none, some, [], ◌∷◌, arith, ◌==◌, ltb, leb, all, is_empty,
  if◌then◌else◌, Text, lit, itoa, digits_from,
}

abbrev pub is_digit : ℕ → Bool
is_digit c = leb b'0' c && leb c b'9'

-- The number that a text of digits writes, after those that were read.
unfoldable pub number_from : ℕ → Text → ℕ
number_from n [] = n
number_from n (c ∷ s) = number_from (n * 10 + (c - b'0')) s

-- What follows an optional T.
unfoldable pub unlabelled : Text → Text
unlabelled [] = []
unlabelled (c ∷ s) = if c == b'T' || c == b't' then s else c ∷ s

-- `strconv.Atoi` of digits: an error where an int64 does not hold the number.
unfoldable pub atoi : Text → Option ℕ
atoi d = let n = number_from 0 d in if ltb n (2 ^ 63) then some n else none

-- T12 or 12; `none` is an error.
unfoldable pub parse_label : Text → Option ℕ
parse_label s = let d = unlabelled s in if is_empty d || not (all is_digit d) then none else atoi d

digits_from-number :
    (fuel n : ℕ) (acc : Text)
    → n < fuel
    → number_from 0 (digits_from fuel n acc) ≡ number_from n acc
unfolding digits_from number_from
digits_from-number zero n acc h = absurd (omega (arith, h))
digits_from-number (suc fuel) n acc h = elim (Bool-cases (ltb n 10)) [
  | inl e ↦ rw e (ap (λ k. number_from k acc) (omega arith))
  | inr e ↦ rw e (
      digits_from-number fuel (n / 10) ((b'0' + n % 10) ∷ acc) (ground arith)
      ∙ ap (λ k. number_from k acc) (omega arith))
]

digits_from-digits :
    (fuel n : ℕ) (acc : Text)
    → n < fuel
    → all is_digit acc ≡ true
    → (all is_digit (digits_from fuel n acc) ≡ true) × (is_empty (digits_from fuel n acc) ≡ false)
unfolding digits_from
digits_from-digits zero n acc h k = absurd (omega (arith, h))
digits_from-digits (suc fuel) n acc h k = elim (Bool-cases (ltb n 10)) [
  | inl e ↦ rw e (ground arith, refl)
  | inr e ↦
      rw e (digits_from-digits fuel (n / 10) ((b'0' + n % 10) ∷ acc) (ground arith) (ground arith))
]

unlabelled-digits : (d : Text) → all is_digit d ≡ true → unlabelled d ≡ d
unfolding unlabelled
unlabelled-digits [] h = refl
unlabelled-digits (c ∷ s) h = ground arith

parse_label-atoi :
    (s d : Text)
    → unlabelled s ≡ d
    → (all is_digit d ≡ true) × (is_empty d ≡ false)
    → parse_label s ≡ atoi d
unfolding parse_label
parse_label-atoi s d e (h, k) = rw (e, h, k)

number_from_done : (n : ℕ) → number_from n [] ≡ n
unfolding number_from
number_from_done n = refl

atoi-itoa : (n : ℕ) → n < 2 ^ 63 → atoi (itoa n) ≡ some n
unfolding atoi itoa
atoi-itoa n h =
    let e = digits_from-number (suc n) n [] (omega arith) ∙ number_from_done n in
    rw e (ground arith)

itoa_digits : (n : ℕ) → (all is_digit (itoa n) ≡ true) × (is_empty (itoa n) ≡ false)
unfolding itoa
itoa_digits n = digits_from-digits (suc n) n [] (omega arith) refl

labelled : (c : ℕ) (s : Text) → (c == b'T' || c == b't') ≡ true → unlabelled (c ∷ s) ≡ s
unfolding unlabelled
labelled c s h = rw h

-- The label of a task, with a small t or without its letter too, reads as its number, where an int64
-- holds it.
pub parse_label-label :
    (t : Task)
    → t.id < 2 ^ 63
    → (parse_label (label t) ≡ some t.id)
      × (parse_label (b't' ∷ itoa t.id) ≡ some t.id)
      × (parse_label (itoa t.id) ≡ some t.id)
unfolding label lit
parse_label-label t h =
    let d = itoa_digits t.id in
    (
      parse_label-atoi (label t) (itoa t.id) (labelled b'T' (itoa t.id) refl) d ∙ atoi-itoa t.id h,
      parse_label-atoi (b't' ∷ itoa t.id) (itoa t.id) (labelled b't' (itoa t.id) refl) d
          ∙ atoi-itoa t.id h,
      parse_label-atoi (itoa t.id) (itoa t.id) (unlabelled-digits (itoa t.id) d.0) d
          ∙ atoi-itoa t.id h,
    )
