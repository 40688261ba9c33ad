-- ===== src/TextBox/Tests.antt =====
-- Instances of what is proved of the text box (textbox/src).
use terminal_teams.Prelude.{All, [], arith, codes, refl, some, true, ◌>>=◌, ◌∷◌, ◌≡◌}
use terminal_teams.TextBox.Message.{Message}
use terminal_teams.TextBox.Input.{
  TextBox, init, queue, split_line, select_contact, all_digits, digits_value,
}
use terminal_teams.TextBox.Handler.{received, contact_selected, receive_loop, receive_try_count}
use terminal_teams.TextBox.Lines.{IsPiece, texts, split_line-pieces}
use terminal_teams.TextBox.Commands.{select_contact-received}

split_line-pieces_example :
    (texts (split_line 3 (codes "abcdefg")) ≡ codes "abcdefg")
    × All (IsPiece 3) (split_line 3 (codes "abcdefg"))
split_line-pieces_example = split_line-pieces 3 (codes "abcdefg") (omega arith)

select_contact-received_example :
    (m : Message) × (select_contact init (codes "42") ≡ (queue init m, true))
    × (receive_loop receive_try_count (received m ∷ []) ≡ (
        receive_loop receive_try_count [] >>= λ later.
        some (contact_selected (digits_value 0 (codes "42")) ∷ later)))
unfolding all_digits
select_contact-received_example =
    select_contact-received init b'4' (codes "2") [] refl (omega arith)
