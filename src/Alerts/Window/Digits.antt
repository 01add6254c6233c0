-- ===== src/Alerts/Window/Digits.antt =====
-- Decimal texts: what a sequence of digits says, and where it ends.
use complif_techinical_chall.Base.{
  ℕ, zero, suc, ◌+◌, ◌-◌, ◌*◌, ◌/◌, ◌%◌, ◌<◌, ◌≡◌, ◌≢◌, refl, sym, ap, ◌∙◌, ◌⊎◌, inl, inr,
  Bool-cases, List, [], ◌∷◌, ◌++◌, arith, ltb, ltb→lt, not-ltb→le,
}
use complif_techinical_chall.Alerts.Window.{decimal_from, decimal, pad2}

-- the number that digits stand for, behind a number that is read already
unfoldable pub value : ℕ → List ℕ → ℕ
value n [] = n
value n (c ∷ cs) = value (n * 10 + (c - 48)) cs

value-decimal_from :
    (fuel n : ℕ) (acc : List ℕ) → n < fuel → value 0 (decimal_from fuel n acc) ≡ value n acc
unfolding value decimal_from
value-decimal_from zero n acc h = absurd (omega arith)
value-decimal_from (suc fuel) n acc h = elim (Bool-cases (ltb n 10)) [
  | inl last ↦ rw last (ap (λ k. value k acc) (omega arith))
  | inr more ↦ rw more (
      value-decimal_from fuel (n / 10) ((48 + n % 10) ∷ acc) (omega (arith, not-ltb→le n 10 more))
      ∙ ap (λ k. value k acc) (omega arith))
]

-- The decimal text of a number stands for that number.
pub value-decimal : (n : ℕ) → value 0 (decimal n) ≡ n
unfolding decimal value
value-decimal n = value-decimal_from (n + 1) n [] (omega arith)

pub value-pad2 : (n : ℕ) → value 0 (pad2 n) ≡ n
unfolding pad2 value
value-pad2 n = ground (arith, value-decimal n)

pub decimal-inj : (m n : ℕ) → decimal m ≡ decimal n → m ≡ n
decimal-inj m n h = sym (value-decimal m) ∙ ap (value 0) h ∙ value-decimal n

pub pad2-inj : (m n : ℕ) → pad2 m ≡ pad2 n → m ≡ n
pad2-inj m n h = sym (value-pad2 m) ∙ ap (value 0) h ∙ value-pad2 n

-- No member is `c`.
abbrev pub Lacks : ℕ → List ℕ → Type 0
Lacks c [] = Unit
Lacks c (x ∷ xs) = (x ≢ c) × Lacks c xs

decimal_from-Lacks :
    (c fuel n : ℕ) (acc : List ℕ)
    → 57 < c ⊎ c < 48
    → Lacks c acc
    → Lacks c (decimal_from fuel n acc)
unfolding decimal_from
decimal_from-Lacks c zero n acc out h = h
decimal_from-Lacks c (suc fuel) n acc out h = elim (Bool-cases (ltb n 10)) [
  | inl last ↦ rw last ((λ e. ground (arith, ltb→lt n 10 last)), h)
  | inr more ↦
      rw more
        (decimal_from-Lacks c fuel (n / 10) ((48 + n % 10) ∷ acc) out ((λ e. ground arith), h))
]

pub decimal-Lacks : (c n : ℕ) → 57 < c ⊎ c < 48 → Lacks c (decimal n)
unfolding decimal
decimal-Lacks c n out = decimal_from-Lacks c (n + 1) n [] out tt

pub pad2-Lacks : (c n : ℕ) → 57 < c ⊎ c < 48 → Lacks c (pad2 n)
unfolding pad2
pad2-Lacks c n out = elim (Bool-cases (ltb n 10)) [
  | inl short ↦ rw short ((λ e. ground arith), decimal-Lacks c n out)
  | inr long ↦ rw long (decimal-Lacks c n out)
]

-- Two texts that are equal up to a separator that neither part before it has agree on both sides.
pub split_at :
    (c : ℕ) (xs ys rs ss : List ℕ)
    → Lacks c xs
    → Lacks c ys
    → xs ++ (c ∷ rs) ≡ ys ++ (c ∷ ss)
    → (xs ≡ ys) × (rs ≡ ss)
split_at c [] [] rs ss hx hy e = (refl, cc)
split_at c [] (y ∷ ys) rs ss hx hy e = absurd (hy.0 (cc))
split_at c (x ∷ xs) [] rs ss hx hy e = absurd (hx.0 (cc))
split_at c (x ∷ xs) (y ∷ ys) rs ss hx hy e =
    let (same, rest) = split_at c xs ys rs ss hx.1 hy.1 (cc) in (cc, rest)

pub Lacks-append : (c : ℕ) (xs ys : List ℕ) → Lacks c xs → Lacks c ys → Lacks c (xs ++ ys)
Lacks-append c [] ys hx hy = hy
Lacks-append c (x ∷ xs) ys hx hy = (hx.0, Lacks-append c xs ys hx.1 hy)
