-- ===== src/Settings/Checked.antt =====
-- What settings that were made have passed (engine/src/TTEngineSettings.cpp, chat/src/TTChatSettings.cpp,
-- contacts/src/TTContactsSettings.cpp).
use mathlib.Core.Path.{subst}
use terminal_teams.Prelude.{
  All, Bool, Bytes, List, Option, [], ap, arith, eq-of-==, false, if◌then◌else◌, length,
  length-append, ltb, none, not, refl, some, sym, true, ℕ, ◌++◌, ◌<◌, ◌==◌, ◌∙◌, ◌∷◌, ◌≡◌, ◌≢◌, ◌≤◌,
}
use terminal_teams.Settings.Parsing.{
  parsed, thrown, and_then, and_then-parsed, or_throw, size_from_chars,
}
use terminal_teams.Settings.Windows.{
  ChatSettings, queue_name, chat_settings, get_primary_message_queue, get_secondary_message_queue,
  primary_postfix, secondary_postfix,
}
use terminal_teams.Settings.Engine.{
  EngineSettings, NetworkInterface, network_interface, read_neighbors, engine_settings,
}
use terminal_teams.Settings.Channels.{engine_settings-parts, parsed-same, chat_settings-name}

some-of-parsed : {A : Type 0} → (o : Option A) (a : A) → or_throw o ≡ parsed a → o ≡ some a
some-of-parsed none a e = absurd cc
some-of-parsed (some b) a e = cc

not-thrown : {A : Type 0} → (a : A) → thrown ≡ parsed a → ⊥
not-thrown a e = cc

abbrev pub IsUsable : (Bytes → Bool) → NetworkInterface → Type 0
IsUsable is_address i =
    (is_address i.ip_address ≡ true) × ((p : ℕ) × (size_from_chars i.port ≡ some p) × (p ≤ 65535))

port-IsUsable :
    (is_address : Bytes → Bool) (name ip_address port : Bytes) (p : ℕ) (large : Bool)
    (i : NetworkInterface)
    → is_address ip_address ≡ true
    → size_from_chars port ≡ some p
    → (large ≡ false → p ≤ 65535)
    → (if large
        then thrown
        else parsed (record { name = name; ip_address = ip_address; port = port }))
      ≡ parsed i
    → IsUsable is_address i
port-IsUsable is_address name ip_address port p true i fine number small e = absurd (not-thrown i e)
port-IsUsable is_address name ip_address port p false i fine number small e =
    subst (IsUsable is_address) (parsed-same _ i e) (fine, (p, number, small refl))

at-most : (p : ℕ) → ltb 65535 p ≡ false → p ≤ 65535
at-most p h = ground (arith, h)

address-IsUsable :
    (is_address : Bytes → Bool) (name ip_address port : Bytes) (fine : Bool) (i : NetworkInterface)
    → is_address ip_address ≡ fine
    → (if not fine
        then thrown
        else and_then (or_throw (size_from_chars port)) (λ p.
          if ltb 65535 p
          then thrown
          else parsed (record { name = name; ip_address = ip_address; port = port })))
      ≡ parsed i
    → IsUsable is_address i
address-IsUsable is_address name ip_address port false i bad e = absurd (not-thrown i e)
address-IsUsable is_address name ip_address port true i fine e =
    let q = and_then-parsed (or_throw (size_from_chars port)) _ i e in
    port-IsUsable is_address name ip_address port q.0 (ltb 65535 q.0) i fine
      (some-of-parsed (size_from_chars port) q.0 q.1) (λ h. at-most q.0 h) q.2

network_interface-IsUsable :
    (is_address : Bytes → Bool) (name ip_address port : Bytes) (i : NetworkInterface)
    → network_interface is_address name ip_address port ≡ parsed i
    → IsUsable is_address i
unfolding network_interface
network_interface-IsUsable is_address name ip_address port i e =
    address-IsUsable is_address name ip_address port (is_address ip_address) i refl e

abbrev pub AllAddresses : (Bytes → Bool) → List Bytes → Type 0
AllAddresses is_address ns = All (λ (n : Bytes). is_address n ≡ true) ns

neighbor-AllAddresses :
    (is_address : Bytes → Bool) (n : Bytes) (ns ms : List Bytes) (fine : Bool)
    → is_address n ≡ fine
    → ((ks : List Bytes)
        → read_neighbors is_address ns ≡ parsed ks
        → (ks ≡ ns) × AllAddresses is_address ns)
    → (if not fine
        then thrown
        else and_then (read_neighbors is_address ns) (λ neighbors. parsed (n ∷ neighbors)))
      ≡ parsed ms
    → (ms ≡ n ∷ ns) × AllAddresses is_address (n ∷ ns)
neighbor-AllAddresses is_address n ns ms false bad later e = absurd (not-thrown ms e)
neighbor-AllAddresses is_address n ns ms true fine later e =
    let q = and_then-parsed (read_neighbors is_address ns) _ ms e in
    let others = later q.0 q.1 in
    (sym (parsed-same (n ∷ q.0) ms q.2) ∙ ap (◌∷◌ n) others.0, (fine, others.1))

read_neighbors-AllAddresses :
    (is_address : Bytes → Bool) (ns ms : List Bytes)
    → read_neighbors is_address ns ≡ parsed ms
    → (ms ≡ ns) × AllAddresses is_address ns
unfolding read_neighbors
read_neighbors-AllAddresses is_address [] ms e = (sym (parsed-same [] ms e), tt)
read_neighbors-AllAddresses is_address (n ∷ ns) ms e =
    neighbor-AllAddresses is_address n ns ms (is_address n) refl
      (λ ks h. read_neighbors-AllAddresses is_address ns ks h) e

-- The settings of an engine that are made have an own address and neighbors that `inet_pton` takes, a port
-- that starts with a number of at most 65535, and as neighbors all the arguments after the ninth.
pub engine_settings-checked :
    (extract : Bytes → Option ℕ) (is_address : Bytes → Bool)
    (program memory queue pipe nickname identity name ip_address port : Bytes) (rest : List Bytes)
    (s : EngineSettings)
    → engine_settings extract is_address
        (program ∷ memory ∷ queue ∷ pipe ∷ nickname ∷ identity ∷ name ∷ ip_address ∷ port ∷ rest)
      ≡ parsed s
    → IsUsable is_address s.network_interface
      × (s.neighbors ≡ rest)
      × AllAddresses is_address s.neighbors
engine_settings-checked extract is_address program memory queue pipe nickname identity name
      ip_address port rest s done =
    let parts =
      engine_settings-parts extract is_address program memory queue pipe nickname identity name
        ip_address port rest s done in
    let ns = read_neighbors-AllAddresses is_address rest s.neighbors parts.4 in
    (
      network_interface-IsUsable is_address name ip_address port s.network_interface parts.3,
      ns.0,
      subst (AllAddresses is_address) (sym ns.0) ns.1,
    )

-- With fewer than nine arguments there are no settings.
pub engine_settings-short :
    (extract : Bytes → Option ℕ) (is_address : Bytes → Bool) (args : List Bytes)
    → length args < 9
    → engine_settings extract is_address args ≡ thrown
unfolding engine_settings
engine_settings-short extract is_address [] h = refl
engine_settings-short extract is_address (a ∷ []) h = refl
engine_settings-short extract is_address (a ∷ b ∷ []) h = refl
engine_settings-short extract is_address (a ∷ b ∷ c ∷ []) h = refl
engine_settings-short extract is_address (a ∷ b ∷ c ∷ d ∷ []) h = refl
engine_settings-short extract is_address (a ∷ b ∷ c ∷ d ∷ e ∷ []) h = refl
engine_settings-short extract is_address (a ∷ b ∷ c ∷ d ∷ e ∷ f ∷ []) h = refl
engine_settings-short extract is_address (a ∷ b ∷ c ∷ d ∷ e ∷ f ∷ g ∷ []) h = refl
engine_settings-short extract is_address (a ∷ b ∷ c ∷ d ∷ e ∷ f ∷ g ∷ k ∷ []) h = refl
engine_settings-short extract is_address (a ∷ b ∷ c ∷ d ∷ e ∷ f ∷ g ∷ k ∷ l ∷ rest) h =
    absurd (omega arith)

-- The names of channels.
longer-differs : (n a b : Bytes) → length a < length b → (n ++ a ≡ n ++ b) → ⊥
longer-differs n a b lt e = omega (arith, length-append n a, length-append n b, ap length e, lt)

starts_with_slash :
    (name q : Bytes) → queue_name name ≡ parsed q → (rest : Bytes) × (q ≡ b'/' ∷ rest)
unfolding queue_name
starts_with_slash [] q e = absurd cc
starts_with_slash (c ∷ cs) q e = go (c == b'/') refl e
  where
    go :
        (slash : Bool)
        → (c == b'/') ≡ slash
        → parsed (if slash then c ∷ cs else b'/' ∷ c ∷ cs) ≡ parsed q
        → (rest : Bytes) × (q ≡ b'/' ∷ rest)
    go true h done = (cs, sym (parsed-same _ q done) ∙ ap (λ (x : ℕ). x ∷ cs) (eq-of-== c b'/' h))
    go false h done = (c ∷ cs, sym (parsed-same _ q done))

-- The two message queues of the settings of a chat that are made have different names, both with a slash
-- in front, as the system asks for.
chat_settings-names :
    (program width height name : Bytes) (s : ChatSettings) (message_size : ℕ)
    → chat_settings (program ∷ width ∷ height ∷ name ∷ []) ≡ parsed s
    → ((get_primary_message_queue s message_size).name
        ≢ (get_secondary_message_queue s message_size).name)
      × ((rest : Bytes) × ((get_primary_message_queue s message_size).name ≡ b'/' ∷ rest))
      × ((rest : Bytes) × ((get_secondary_message_queue s message_size).name ≡ b'/' ∷ rest))
unfolding get_primary_message_queue get_secondary_message_queue
chat_settings-names program width height name s message_size e =
    let q =
      starts_with_slash name s.message_queue_name
        (chat_settings-name program width height name s e) in
    (
      λ h. longer-differs s.message_queue_name primary_postfix secondary_postfix (omega arith) h,
      (q.0 ++ primary_postfix, ap (λ (n : Bytes). n ++ primary_postfix) q.1),
      (q.0 ++ secondary_postfix, ap (λ (n : Bytes). n ++ secondary_postfix) q.1),
    )
