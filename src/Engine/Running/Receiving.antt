-- ===== src/Engine/Running/Receiving.antt =====
-- Messages from neighbors (engine/src/TTBroadcasterChat.cpp, `handleReceive`) in a node that runs.
use terminal_teams.Prelude.{
  Bool-cases, Bytes, List, Option-cases, [], arith, false, get_elem?-some, inl, inr, length, refl,
  same, some, sym, true, ℕ, ◌<◌, ◌∙◌, ◌∷◌, ◌≡◌,
}
use terminal_teams.Contacts.State.{is_inactive}
use terminal_teams.Contacts.Handler
use terminal_teams.Contacts.Handler.{Entry}
use terminal_teams.Contacts.Window as Window
use terminal_teams.Contacts.Success.{receive-live}
use terminal_teams.Chat.Handler as ChatHandler
use terminal_teams.Chat.Success.{receive-Live}
use terminal_teams.Engine.Node.{Node}
use terminal_teams.Engine.Chat.{receive_all, receive_from}
use terminal_teams.Engine.Activating.{known-lt}
use terminal_teams.Engine.Running.{Running, Runs, moved-Running}

-- The contact with this identity, where there is one, counts as active.
abbrev pub IsHeard : Node → Bytes → Type 0
IsHeard n identity =
    (id : ℕ) (e : Entry)
    → Handler.get_by_identity n.contacts identity ≡ some id
    → Handler.get n.contacts id ≡ some e
    → is_inactive e.state ≡ false

pub receive_all-step :
    (n : Node) (id : ℕ) (m : Bytes) (ms : List Bytes) (now : ℕ)
    → (ChatHandler.receive n.chat id m now).1 ≡ true
    → receive_all n id (m ∷ ms) now
      ≡ receive_all (record n { chat = (ChatHandler.receive n.chat id m now).0 }) id ms now
unfolding receive_all
receive_all-step n id m ms now e = rw (e, receive_all) refl

module _ (entries : List Window.Entry) where
  receive_all-Runs :
      (n : Node) (id : ℕ) (ms : List Bytes) (now : ℕ)
      → Running entries n
      → id < length n.contacts.contacts
      → Runs entries (receive_all n id ms now)
  unfolding receive_all
  receive_all-Runs n id [] now r lt = (n, true, refl, r)
  receive_all-Runs n id (m ∷ ms) now r lt =
      let got =
        receive-Live n.contacts.current_contact (length n.contacts.contacts) n.chat id m now
          r.ready.chat_live lt in
      let chat = (ChatHandler.receive n.chat id m now).0 in
      let r' =
        moved-Running n.contacts chat r.current.0 r
          (record { inv = r.ready.inv; live = r.ready.live; chat_live = got.1 }) r.current.1
          (omega arith) in
      let later = receive_all-Runs (record n { chat = chat }) id ms now r' lt in
      (later.0, later.1, receive_all-step n id m ms now got.0 ∙ later.2, later.3)

  pub heard-Runs :
      (n : Node) (identity : Bytes) (messages : List Bytes) (now id : ℕ) (e : Entry)
      → Running entries n
      → Handler.get_by_identity n.contacts identity ≡ some id
      → Handler.get n.contacts id ≡ some e
      → is_inactive e.state ≡ false
      → Runs entries (receive_from n identity messages now)
  unfolding receive_from Handler.get
  heard-Runs n identity messages now id e r named found here =
      elim (Bool-cases (same e.ip_address_and_port n.own_address)) [
        | inl own ↦ (n, true, rw (named, found, own, receive_from) refl, r)
        | inr far ↦
            let counted =
              receive-live entries n.contacts id e r.ready.inv r.ready.live found here in
            let frame = counted.2.1 in
            let r' =
              moved-Running counted.0 n.chat r.current.0 r
                (record {
                  inv = counted.2.0;
                  live = frame.same_stopped ∙ r.ready.live;
                  chat_live = record {
                    live = r.ready.chat_live.live;
                    at = r.ready.chat_live.at ∙ sym frame.same_current;
                    many = r.ready.chat_live.many ∙ sym frame.same_size;
                  };
                })
                (frame.same_current ∙ r.current.1) (omega (arith, frame.same_size)) in
            let later =
              receive_all-Runs (record n { contacts = counted.0 }) id messages now r'
                (omega (
                  arith,
                  frame.same_size,
                  known-lt entries n.contacts identity id r.ready.inv named,
                )) in
            (later.0, later.1, rw (named, found, far, counted.1, receive_from) later.2, later.3)
      ]

  -- Messages from an identity that is not known, or from a contact that counts as active.
  pub receive_from-Runs :
      (n : Node) (identity : Bytes) (messages : List Bytes) (now : ℕ)
      → Running entries n
      → IsHeard n identity
      → Runs entries (receive_from n identity messages now)
  unfolding receive_from Handler.get
  receive_from-Runs n identity messages now r heard =
      elim (Option-cases (Handler.get_by_identity n.contacts identity)) [
        | inl missing ↦ (n, false, rw (missing, receive_from) refl, r)
        | inr (id, named) ↦
            let at =
              get_elem?-some n.contacts.contacts id
                (known-lt entries n.contacts identity id r.ready.inv named) in
            heard-Runs n identity messages now id at.0 r named at.1 (heard id at.0 named at.1)
      ]
