-- ===== src/Chat/Layout.antt =====
-- `TTChat::print` of chat/src/TTChat.cpp: how a text becomes the lines of one message, with
-- utils/src/TTUtilsAscii.hpp.
pub mod Wrap
pub mod Content
mod Tests
use terminal_teams.Prelude.{
  Bool, Bytes, List, Option, [], drop, false, if◌then◌else◌, is_empty, leb, length, ltb, none,
  reverse, some, suc, take, true, zero, ℕ, ◌++◌, ◌+◌, ◌==◌, ◌>>=◌, ◌||◌, ◌∷◌,
}

abbrev pub space : ℕ
space = 0x20

unfoldable pub is_whitespace : ℕ → Bool
is_whitespace c =
    (c == 0x09) || (c == 0x0A) || (c == 0x0B) || (c == 0x0C) || (c == 0x0D) || (c == 0x20)

-- The text from its first character that is no whitespace.
unfoldable pub skip_whitespace : Bytes → Bytes
unfolding is_whitespace
skip_whitespace [] = []
skip_whitespace (c ∷ cs) = let rest = skip_whitespace cs in if is_whitespace c then rest else c ∷ cs

-- The first loop; where no such character is found it leaves the text alone.
unfoldable pub trim_start : Bytes → Bytes
unfolding skip_whitespace
trim_start bytes = let rest = skip_whitespace bytes in if is_empty rest then bytes else rest

-- The second loop, over the reverse iterators.
unfoldable pub trim_end : Bytes → Bytes
unfolding trim_start
trim_end bytes = reverse (trim_start (reverse bytes))

-- The third loop, `skipping` while in a run of whitespace: each run becomes one space.
unfoldable pub squeeze : Bool → Bytes → Bytes
unfolding is_whitespace
squeeze skipping [] = []
squeeze skipping (c ∷ cs) =
    let rest = squeeze (is_whitespace c) cs in
    if is_whitespace c then (if skipping then rest else space ∷ rest) else c ∷ rest

unfoldable pub prepend : ℕ → List Bytes → List Bytes
prepend c [] = (c ∷ []) ∷ []
prepend c (w ∷ ws) = (c ∷ w) ∷ ws

-- The words between the spaces, empty ones included.
unfoldable pub split_words : Bytes → List Bytes
unfolding prepend
split_words [] = [] ∷ []
split_words (c ∷ cs) = let rest = split_words cs in if c == space then [] ∷ rest else prepend c rest

-- The inner loop: words are put on the line while they fit.
unfoldable pub fill_line : ℕ → Bytes → List Bytes → Bytes × List Bytes
fill_line width line [] = (line, [])
fill_line width line (w ∷ ws) =
    let rest = fill_line width (line ++ w ++ space ∷ []) ws in
    if leb (length line + length w) width then rest else (line, w ∷ ws)

-- `pop_back`.
unfoldable pub drop_last : Bytes → Bytes
drop_last [] = []
drop_last (c ∷ []) = []
drop_last (c ∷ d ∷ ds) = c ∷ drop_last (d ∷ ds)

-- The outer loop, with fuel: `none` when it runs out.
unfoldable pub wrap : ℕ → ℕ → List Bytes → Option (List Bytes)
wrap fuel width [] = some []
wrap zero width (w ∷ ws) = none
wrap (suc fuel) width (w ∷ ws) = elim (ltb (length w) width) [
  | true ↦
      let filled = fill_line width [] (w ∷ ws) in
      wrap fuel width filled.1 >>= λ lines. some (drop_last filled.0 ∷ lines)
  | false ↦ wrap fuel width (drop width w ∷ ws) >>= λ lines. some (take width w ∷ lines)
]

-- The rounds that the outer loop can take at most, where a line has room for one character.
unfoldable pub measure : List Bytes → ℕ
measure [] = 0
measure (w ∷ ws) = suc (length w) + measure ws

unfoldable pub normalize : Bytes → Bytes
normalize bytes = squeeze false (trim_end (trim_start bytes))

-- The lines of a message.
unfoldable pub layout : ℕ → Bytes → Option (List Bytes)
layout width bytes =
    let text = normalize bytes in
    if is_empty text
    then some ((space ∷ []) ∷ [])
    else (let words = split_words text in wrap (measure words) width words)
