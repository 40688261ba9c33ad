-- ===== src/TextBox/Commands.antt =====
-- The command `#select` (textbox/src/TTTextBox.cpp), up to the callback that it makes
-- (TTTextBoxHandler.cpp).
use native.Mathlib.Nat.{pow-suc, mul_assoc, mul_comm}
use terminal_teams.Prelude.{
  Bool, Bytes, List, Option, [], ap, arith, false, length, ltb, refl, some, suc, true, zero, ℕ, ◌*◌,
  ◌+◌, ◌-◌, ◌/◌, ◌<◌, ◌>>=◌, ◌^◌, ◌∷◌, ◌≡◌, ◌≤◌,
}
use terminal_teams.TextBox.Message.{
  Message, contacts_select, bytes_of_size, size_of_bytes, size_width, data_max_digits,
}
use terminal_teams.TextBox.Input.{
  TextBox, select_contact, all_digits, digits_value, from_chars, queue,
}
use terminal_teams.TextBox.Handler.{
  Reception, contact_selected, received, calls, receive_loop, receive_try_count, dispatch,
}

length-bytes_of_size : (k n : ℕ) → length (bytes_of_size k n) ≡ k
unfolding bytes_of_size
length-bytes_of_size zero n = refl
length-bytes_of_size (suc k) n = ap suc (length-bytes_of_size k (n / 256))

-- A number is read back from the bytes that hold it.
pub size_of_bytes-bytes_of_size : (k n : ℕ) → n < 256 ^ k → size_of_bytes (bytes_of_size k n) ≡ n
unfolding bytes_of_size size_of_bytes
size_of_bytes-bytes_of_size zero n h = omega arith
size_of_bytes-bytes_of_size (suc k) n h = omega (
  arith,
  size_of_bytes-bytes_of_size k (n / 256) (omega (arith, pow-suc 256 k, mul_comm 256 (256 ^ k))),
)

all_digits-head :
    (c : ℕ) (cs : Bytes) → all_digits (c ∷ cs) ≡ true → (c ≤ 57) × (all_digits cs ≡ true)
unfolding all_digits
all_digits-head c cs h = ground arith

-- Digits make a number with as many places at most.
digits_value-bound :
    (acc : ℕ) (digits : Bytes) (bound : ℕ)
    → all_digits digits ≡ true
    → acc < bound
    → digits_value acc digits < bound * 10 ^ length digits
unfolding all_digits digits_value
digits_value-bound acc [] bound d h = omega arith
digits_value-bound acc (c ∷ cs) bound d h =
    let digit = all_digits-head c cs d in
    omega (
      arith,
      digits_value-bound (acc * 10 + (c - 48)) cs (bound * 10) digit.1 (omega (arith, digit.0)),
      ap (λ (p : ℕ). bound * p) (pow-suc 10 (length cs)),
      mul_assoc bound 10 (10 ^ length cs),
      mul_comm 10 (10 ^ length cs),
    )

abbrev Answers : Option (TextBox × Bool) → Type 0
Answers o = (t : TextBox) × (done : Bool) × (o ≡ some (t, done))

not_over : (n : ℕ) → n ≤ data_max_digits → ltb data_max_digits n ≡ false
not_over n h = ground arith

at_most_four_places : (n : ℕ) → n ≤ data_max_digits → 10 ^ n ≤ 10000
at_most_four_places zero h = omega arith
at_most_four_places (suc zero) h = omega arith
at_most_four_places (suc (suc zero)) h = omega arith
at_most_four_places (suc (suc (suc zero))) h = omega arith
at_most_four_places (suc (suc (suc (suc zero)))) h = omega arith
at_most_four_places (suc (suc (suc (suc (suc n))))) h = absurd (omega arith)

-- The message that a selection of a contact puts in the queue.
abbrev selection : ℕ → Message
selection id = record { status = contacts_select; text = bytes_of_size size_width id }

dispatch-selection :
    (id : ℕ)
    → id < 256 ^ size_width
    → dispatch contacts_select (bytes_of_size size_width id) ≡ calls (contact_selected id ∷ [])
unfolding dispatch
dispatch-selection id h =
    rw (length-bytes_of_size size_width id, size_of_bytes-bytes_of_size size_width id h) refl

receive-selection :
    (id : ℕ) (events : List Reception)
    → id < 256 ^ size_width
    → receive_loop receive_try_count (received (selection id) ∷ events)
      ≡ (receive_loop receive_try_count events >>= λ later. some (contact_selected id ∷ later))
unfolding receive_loop
receive-selection id events h = rw (dispatch-selection id h, receive_loop) refl

-- `select` with at most four digits queues one message, on which the receiver selects the contact
-- with the number that the digits write, and goes on with all its tries.
pub select_contact-received :
    (t : TextBox) (c : ℕ) (cs : Bytes) (events : List Reception)
    → all_digits (c ∷ cs) ≡ true
    → length (c ∷ cs) ≤ data_max_digits
    → (m : Message) × (select_contact t (c ∷ cs) ≡ (queue t m, true))
      × (receive_loop receive_try_count (received m ∷ events) ≡ (
          receive_loop receive_try_count events >>= λ later.
          some (contact_selected (digits_value 0 (c ∷ cs)) ∷ later)))
unfolding select_contact from_chars
select_contact-received t c cs events d h = (
  selection (digits_value 0 (c ∷ cs)),
  queued,
  receive-selection (digits_value 0 (c ∷ cs)) events small,
)
  where
    small : digits_value 0 (c ∷ cs) < 256 ^ size_width
    small = omega (
      arith,
      digits_value-bound 0 (c ∷ cs) 1 d (omega arith),
      at_most_four_places (length (c ∷ cs)) h,
    )

    queued : select_contact t (c ∷ cs) ≡ (queue t (selection (digits_value 0 (c ∷ cs))), true)
    queued = rw (d, not_over (length (c ∷ cs)) h) refl
