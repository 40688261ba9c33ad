-- ===== src/Settings/Parsing.antt =====
-- What the settings share: the result of a constructor, and numbers as `std::from_chars` reads them.
use terminal_teams.Prelude.{
  Bytes, Option, [], if◌then◌else◌, is_empty, ltb, none, refl, some, ℕ, ◌^◌, ◌∷◌, ◌≡◌,
}
use terminal_teams.TextBox.Input.{is_digit, digits_value}

-- A constructor returns, throws, or does what has no defined behaviour.
pub data Parsed (A : Type 0) : Type 0 where
  parsed : A → Parsed A
  thrown : Parsed A
  undefined : Parsed A

module _ {A B : Type 0} where
  abbrev pub and_then : Parsed A → (A → Parsed B) → Parsed B
  and_then (parsed a) f = f a
  and_then thrown f = thrown
  and_then undefined f = undefined

  -- A step that has returned.
  pub and_then-parsed :
      (p : Parsed A) (f : A → Parsed B) (b : B)
      → and_then p f ≡ parsed b
      → (a : A) × (p ≡ parsed a) × (f a ≡ parsed b)
  and_then-parsed (parsed a) f b e = (a, refl, e)
  and_then-parsed thrown f b e = absurd cc
  and_then-parsed undefined f b e = absurd cc

abbrev pub or_throw : {A : Type 0} → Option A → Parsed A
or_throw none = thrown
or_throw (some a) = parsed a

unfoldable pub leading_digits : Bytes → Bytes
leading_digits [] = []
leading_digits (c ∷ cs) = if is_digit c then c ∷ leading_digits cs else []

-- `std::from_chars` into a `size_t`: it reads the digits at the front, and refuses where there is none or
-- where the number does not fit. What follows the digits is not looked at.
unfoldable pub size_from_chars : Bytes → Option ℕ
unfolding leading_digits digits_value
size_from_chars s =
    let digits = leading_digits s in
    let value = digits_value 0 digits in
    if is_empty digits then none else if ltb value (2 ^ 64) then some value else none
