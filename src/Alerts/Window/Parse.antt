-- ===== src/Alerts/Window/Parse.antt =====
-- Window texts: a number and a letter are read as what they say.
use complif_techinical_chall.Base.{
  ℕ, zero, suc, ◌+◌, ◌-◌, ◌*◌, ◌/◌, ◌%◌, ◌<◌, ◌≤◌, ◌≡◌, refl, ap, ◌∙◌, true, Bool-cases, inl, inr,
  some, List, [], ◌∷◌, ◌++◌, All, arith, ltb, ltb→lt,
}
use complif_techinical_chall.Alerts.Number.{finite, to_double, to_double-exact, max_exact}
use complif_techinical_chall.Alerts.Window.{
  with_value, WindowUnit, decimal_from, decimal, is_digit, unit_of, parse_from, parse_window,
}
use complif_techinical_chall.Alerts.Window.Digits.{value, value-decimal}

abbrev AreDigits : List ℕ → Type 0
AreDigits = All (λ c. is_digit c ≡ true)

-- A text that is not empty.
abbrev IsCons : List ℕ → Type 0
IsCons [] = ⊥
IsCons (c ∷ cs) = Unit

decimal_from-AreDigits :
    (fuel n : ℕ) (acc : List ℕ) → AreDigits acc → AreDigits (decimal_from fuel n acc)
unfolding decimal_from is_digit
decimal_from-AreDigits zero n acc h = h
decimal_from-AreDigits (suc fuel) n acc h = elim (Bool-cases (ltb n 10)) [
  | inl last ↦ rw last (ground (arith, ltb→lt n 10 last), h)
  | inr more ↦
      rw more (decimal_from-AreDigits fuel (n / 10) ((48 + n % 10) ∷ acc) (ground arith, h))
]

decimal-AreDigits : (n : ℕ) → AreDigits (decimal n)
unfolding decimal
decimal-AreDigits n = decimal_from-AreDigits (n + 1) n [] tt

decimal_from-IsCons : (fuel n : ℕ) (acc : List ℕ) → IsCons acc → IsCons (decimal_from fuel n acc)
unfolding decimal_from
decimal_from-IsCons zero n acc h = h
decimal_from-IsCons (suc fuel) n acc h = elim (Bool-cases (ltb n 10)) [
  | inl last ↦ rw last tt
  | inr more ↦ rw more (decimal_from-IsCons fuel (n / 10) ((48 + n % 10) ∷ acc) tt)
]

decimal_from_fuel-IsCons : (fuel n : ℕ) (acc : List ℕ) → 0 < fuel → IsCons (decimal_from fuel n acc)
unfolding decimal_from
decimal_from_fuel-IsCons zero n acc h = absurd (omega arith)
decimal_from_fuel-IsCons (suc fuel) n acc h = elim (Bool-cases (ltb n 10)) [
  | inl last ↦ rw last tt
  | inr more ↦ rw more (decimal_from-IsCons fuel (n / 10) ((48 + n % 10) ∷ acc) tt)
]

decimal-IsCons : (n : ℕ) → IsCons (decimal n)
unfolding decimal
decimal-IsCons n = decimal_from_fuel-IsCons (n + 1) n [] (omega arith)

module _ (letter : ℕ) (unit : WindowUnit) (named : unit_of letter ≡ some unit) where
  -- a digit before more text is read into the number
  parse_from-digit :
      (n c : ℕ) (cs : List ℕ)
      → is_digit c ≡ true
      → parse_from n (c ∷ (cs ++ (letter ∷ [])))
        ≡ parse_from (n * 10 + (c - 48)) (cs ++ (letter ∷ []))
  unfolding parse_from
  parse_from-digit n c [] h = rw h refl
  parse_from-digit n c (d ∷ cs) h = rw h refl

  parse_from-digits :
      (n : ℕ) (cs : List ℕ)
      → AreDigits cs
      → parse_from n (cs ++ (letter ∷ [])) ≡ some (to_double (value n cs), unit)
  unfolding parse_from with_value value
  parse_from-digits n [] h = rw named refl
  parse_from-digits n (c ∷ cs) h =
      parse_from-digit n c cs h.0 ∙ parse_from-digits (n * 10 + (c - 48)) cs h.1

  parse_window-digits :
      (cs : List ℕ)
      → IsCons cs
      → AreDigits cs
      → parse_window (cs ++ (letter ∷ [])) ≡ some (to_double (value 0 cs), unit)
  unfolding parse_window value
  parse_window-digits [] ne h = absurd ne
  parse_window-digits (c ∷ cs) ne h = rw h.0 (
      parse_from-digits (c - 48) cs h.1
      ∙ ap (λ k. some (to_double (value k cs), unit)) (omega arith))

parse_window-text :
    (n letter : ℕ) (unit : WindowUnit)
    → unit_of letter ≡ some unit
    → parse_window (decimal n ++ (letter ∷ [])) ≡ some (to_double n, unit)
parse_window-text n letter unit named =
    parse_window-digits letter unit named (decimal n) (decimal-IsCons n) (decimal-AreDigits n)
    ∙ ap (λ k. some (to_double k, unit)) (value-decimal n)

-- The window text made of the decimal digits of a number up to 2^53 and a letter that names a unit,
-- in either case, is read as that number of that unit.
pub parse_window-decimal :
    (n letter : ℕ) (unit : WindowUnit)
    → n ≤ max_exact
    → unit_of letter ≡ some unit
    → parse_window (decimal n ++ (letter ∷ [])) ≡ some (finite n, unit)
parse_window-decimal n letter unit small named =
    parse_window-text n letter unit named ∙ ap (λ v. some (v, unit)) (to_double-exact n small)
