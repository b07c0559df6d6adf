-- ===== src/Products/Ean/Checksum.antt =====
-- src/modules/products/utils/ean.utils.ts: the check digits against one rule for every length. From
-- the right, the digits count once and three times in turn, and the sum is a multiple of ten.
use radha_backend.Prelude.{
  ℕ, zero, suc, ◌+◌, ◌-◌, ◌*◌, ◌%◌, ◌<◌, ◌≡◌, ◌↔◌, refl, ap, Bool, true, not, [], ◌∷◌, ◌++◌, arith,
  ◌==◌, ==_iff, if◌then◌else◌, length, All, inl, inr, Bool-cases,
}
use radha_backend.Products.Ean.{Text, is_digit, take, drop, weighted_sum, check_digit}

abbrev pub even : ℕ → Bool
even zero = true
even (suc n) = not (even n)

-- The sum of the digits with the weights of the rule.
abbrev pub gs1_sum : Text → ℕ
gs1_sum [] = 0
gs1_sum (c ∷ cs) =
    let rest = gs1_sum cs in (if even (length cs) then c - 48 else (c - 48) * 3) + rest

abbrev pub check_of : Bool → Text → ℕ
check_of triple cs = (10 - weighted_sum triple cs % 10) % 10

pub length-snoc : (xs : Text) (d : ℕ) → length (xs ++ d ∷ []) ≡ suc (length xs)
length-snoc [] d = refl
length-snoc (x ∷ xs) d = ap (λ n. suc n) (length-snoc xs d)

pub gs1_sum-snoc :
    (xs : Text) (d : ℕ)
    → gs1_sum (xs ++ d ∷ []) ≡ weighted_sum (not (even (length xs))) xs + (d - 48)
unfolding weighted_sum
gs1_sum-snoc [] d = omega arith
gs1_sum-snoc (x ∷ xs) d = rw (length-snoc xs d) (elim (Bool-cases (even (length xs))) [
  | inl e ↦ let rest = rw e at (gs1_sum-snoc xs d) in rw e (omega (arith, rest))
  | inr e ↦ let rest = rw e at (gs1_sum-snoc xs d) in rw e (omega (arith, rest))
])

-- A text of one more character is split at its last.
pub record IsSnoc (n : ℕ) (cs : Text) : Type 0 where
  pub front : Text
  pub last : ℕ
  pub whole : cs ≡ front ++ last ∷ []
  pub front_length : length front ≡ n
  pub taken : take n cs ≡ front
  pub dropped : drop n cs ≡ last ∷ []

pub split_last : (n : ℕ) (cs : Text) → length cs ≡ suc n → IsSnoc n cs
split_last zero [] h = cc
split_last zero (c ∷ []) h = record {
  front = [];
  last = c;
  whole = refl;
  front_length = refl;
  taken = refl;
  dropped = refl;
}
split_last zero (c ∷ d ∷ cs) h = absurd (omega (arith, h))
split_last (suc n) [] h = absurd (omega (arith, h))
split_last (suc n) (c ∷ cs) h =
    let rest = split_last n cs (omega (arith, h)) in
    record {
      front = c ∷ rest.front;
      last = rest.last;
      whole = ap (λ x. c ∷ x) rest.whole;
      front_length = ap (λ x. suc x) rest.front_length;
      taken = ap (λ x. c ∷ x) rest.taken;
      dropped = rest.dropped;
    }

check_equation : (s d : ℕ) → d < 10 → ((d == (10 - s % 10) % 10) ≡ true) ↔ ((s + d) % 10 ≡ 0)
check_equation s d small = (
  λ h. let e = (==_iff d ((10 - s % 10) % 10)).0 h in omega (arith, e),
  λ h. (==_iff d ((10 - s % 10) % 10)).1 (omega (arith, h)),
)

All-last : (xs : Text) (d : ℕ) → All (λ c. is_digit c ≡ true) (xs ++ d ∷ []) → is_digit d ≡ true
All-last [] d u = u.0
All-last (x ∷ xs) d u = All-last xs d u.1

-- The check digit is right exactly when the rule holds of the whole text.
pub check_digit_iff :
    (n : ℕ) (cs : Text)
    → length cs ≡ suc n
    → All (λ c. is_digit c ≡ true) cs
    → (check_digit (drop n cs) (check_of (not (even n)) (take n cs)) ≡ true) ↔ (gs1_sum cs % 10 ≡ 0)
check_digit_iff n cs h digits =
    let parts = split_last n cs h in
    let last_digit = All-last parts.front parts.last (rw parts.whole at digits) in
    let small : parts.last - 48 < 10 = ground (arith, last_digit) in
    let sum = rw parts.front_length at (gs1_sum-snoc parts.front parts.last) in
    let iff = check_equation (weighted_sum (not (even n)) parts.front) (parts.last - 48) small in
    rw (parts.dropped, parts.taken, ap gs1_sum parts.whole, sum) iff
