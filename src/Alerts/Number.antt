-- ===== src/Alerts/Number.antt =====
-- The numbers of JavaScript that the arithmetic of a window meets (`calculateWindowKey` of
-- src/alerts/alerts.service.ts): whole ones, Infinity and NaN.
use Prim.Native.Nat.{◌^◌}
use complif_techinical_chall.Base.{
  ℕ, zero, suc, ◌+◌, ◌*◌, ◌/◌, ◌%◌, ◌≤◌, ◌≡◌, refl, Bool, true, false, ◌&&◌, ◌||◌, leb, ltb, le→leb,
  nat_eq, arith, if◌then◌else◌,
}

pub data Number : Type 0 where
  finite : ℕ → Number
  infinite nan : Number

-- 2^53, up to which every whole number is one of JavaScript
abbrev pub max_exact : ℕ
max_exact = 9007199254740992

-- the multiple of a unit that is nearest to a number, the even one of two
abbrev nearest : ℕ → ℕ → ℕ
nearest n unit =
    if ltb (2 * (n % unit)) unit || nat_eq (2 * (n % unit)) unit && nat_eq (n / unit % 2) 0
    then n / unit * unit
    else (n / unit + 1) * unit

abbrev in_range : ℕ → Number
in_range m = if ltb m (2 ^ 1024) then finite m else infinite

-- The units are the powers of two; the first that leaves fewer than 2^53 multiples is the one.
round_from : ℕ → ℕ → ℕ → Number
round_from zero n unit = infinite
round_from (suc fuel) n unit =
    let rest = round_from fuel n (unit * 2) in
    if ltb (n / unit) max_exact then in_range (nearest n unit) else rest

-- 2^971 is the last unit of a number below 2^1024
rounded : Bool → ℕ → Number
unfolding round_from
rounded true n = finite n
rounded false n = round_from 972 n 1

-- the number that a decimal text denotes: `parseInt` of its digits
unfoldable pub to_double : ℕ → Number
unfolding rounded
to_double n = rounded (leb n max_exact) n

-- Math.floor(n / value), for a whole number
unfoldable pub floor_quotient : ℕ → Number → Number
floor_quotient n (finite zero) = if nat_eq n 0 then nan else infinite
floor_quotient n (finite (suc v)) = finite (n / suc v)
floor_quotient n infinite = finite 0
floor_quotient n nan = nan

-- the product
unfoldable pub times : Number → Number → Number
times (finite m) (finite n) = finite (m * n)
times (finite m) infinite = if nat_eq m 0 then nan else infinite
times (finite m) nan = nan
times infinite (finite n) = if nat_eq n 0 then nan else infinite
times infinite infinite = infinite
times infinite nan = nan
times nan n = nan

-- Math.floor(n / value) * value
unfoldable pub bucket_of : Number → ℕ → Number
unfolding floor_quotient times
bucket_of value n = times (floor_quotient n value) value

abbrev pub plus : Number → ℕ → Number
plus (finite m) n = finite (m + n)
plus infinite n = infinite
plus nan n = nan

-- a window of no units, or of infinitely many
abbrev pub Vanishes : Number → Type 0
Vanishes (finite zero) = Unit
Vanishes (finite (suc n)) = ⊥
Vanishes infinite = Unit
Vanishes nan = Unit

-- Whole numbers up to 2^53 are exact.
pub to_double-exact : (n : ℕ) → n ≤ max_exact → to_double n ≡ finite n
unfolding to_double
to_double-exact n h = rw (le→leb n max_exact h) refl

-- The buckets of such a window are not numbers.
pub bucket_of-Vanishes : (value : Number) (n : ℕ) → Vanishes value → bucket_of value n ≡ nan
unfolding bucket_of
bucket_of-Vanishes (finite zero) n h = ground arith
bucket_of-Vanishes (finite (suc v)) n h = absurd h
bucket_of-Vanishes infinite n h = refl
bucket_of-Vanishes nan n h = refl
