-- ===== src/Utils/NamedPipe.antt =====
-- utils/src/TTUtilsNamedPipe.cpp: the pipe from the text box to the engine.
use terminal_teams.Prelude.{
  Bool, Bytes, Option, [], drop, false, if◌then◌else◌, is_empty, length, none, some, suc, take,
  true, zero, ℕ, ◌++◌,
}
use terminal_teams.Utils.Syscall.{Os, ok, failed, got, not_got}

pub record NamedPipe : Type 0 where
  pub path : Bytes
  pub message_size : ℕ
  pub descriptor : Option ℕ

unfoldable pub init : Bytes → ℕ → NamedPipe
init path message_size = record { path = path; message_size = message_size; descriptor = none }

unfoldable pub alive : NamedPipe → Bool
alive p = elim p.descriptor [ none ↦ false | some d ↦ true ]

module _ {W : Type 0} (os : Os W) where
  -- The loops of `create` and `open`: the descriptor, or `none` after all attempts.
  unfoldable pub open_loop : ℕ → W → Bytes → Bool → W × Option ℕ
  open_loop zero w path writing = (w, none)
  open_loop (suc attempts) w path writing =
      let opened = os.open_file w path writing in
      let again = open_loop attempts opened.0 path writing in
      elim opened.1 [ ok d ↦ (opened.0, some d) | failed e ↦ again ]

  -- The end of both: the descriptor is stored where there is one.
  unfoldable pub opened_with : W × Option ℕ → NamedPipe → W × NamedPipe × Bool
  opened_with r p = elim r.1 [
    | none ↦ (r.0, p, false)
    | some d ↦ (r.0, record p { descriptor = some d }, true)
  ]

  unfoldable pub create : ℕ → W → NamedPipe → W × NamedPipe × Bool
  unfolding alive open_loop opened_with
  create attempts w p =
      if alive p
      then (w, p, false)
      else (let made = os.mkfifo w p.path in
          elim made.1 [
            | failed e ↦ (made.0, p, false)
            | ok n ↦ opened_with (open_loop attempts made.0 p.path true) p
          ])

  -- The path is forgotten, so that the destructor does not remove it.
  unfoldable pub open_pipe : ℕ → W → NamedPipe → W × NamedPipe × Bool
  unfolding alive open_loop opened_with
  open_pipe attempts w p =
      if alive p
      then (w, p, false)
      else opened_with (open_loop attempts w p.path false) (record p { path = [] })

  -- `read` puts what it got over the start of the message; `none` is the exception of `value()`.
  unfoldable pub receive : W → NamedPipe → Bytes → Option (W × Bytes × Bool)
  receive w p message = elim p.descriptor [
    | none ↦ none
    | some d ↦
        let done = os.read w d p.message_size in
        some (elim done.1 [
          | got bytes ↦ (done.0, bytes ++ drop (length bytes) message, true)
          | not_got e ↦ (done.0, message, false)
        ])
  ]

  unfoldable pub send : W → NamedPipe → Bytes → Option (W × Bool)
  send w p message = elim p.descriptor [
    | none ↦ none
    | some d ↦
        let done = os.write w d (take p.message_size message) in
        some (elim done.1 [ ok n ↦ (done.0, true) | failed e ↦ (done.0, false) ])
  ]

  -- The destructor.
  unfoldable pub destruct : W → NamedPipe → W × NamedPipe
  destruct w p =
      let w' : W = elim p.descriptor [ none ↦ w | some d ↦ (os.close w d).0 ] in
      (
        if is_empty p.path then w' else (os.unlink w' p.path).0,
        record p { path = []; descriptor = none },
      )
