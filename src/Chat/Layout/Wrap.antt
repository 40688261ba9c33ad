-- ===== src/Chat/Layout/Wrap.antt =====
-- The loops that make lines of words (`TTChat::print`, chat/src/TTChat.cpp): they end, and keep to
-- the width.
use terminal_teams.Prelude.{
  All, Bool-cases, Bytes, List, Option, [], arith, drop, false, inl, inr, is_empty, le-of-ltb,
  length, length-append, length-drop, length-take, lt-of-ltb, ltb, none, refl, some, suc, take,
  true, zero, ℕ, ◌++◌, ◌+◌, ◌-◌, ◌<◌, ◌>>=◌, ◌∷◌, ◌≡◌, ◌≤◌,
}
use terminal_teams.Chat.Layout.{
  space, fill_line, drop_last, wrap, measure, layout, split_words, normalize,
}

length-drop_last : (bytes : Bytes) → length (drop_last bytes) ≡ length bytes - 1
unfolding drop_last
length-drop_last [] = omega arith
length-drop_last (c ∷ []) = omega arith
length-drop_last (c ∷ d ∷ ds) = omega (arith, length-drop_last (d ∷ ds))

-- A line keeps to the width, but for the space at its end.
fill_line-length :
    (width : ℕ) (line : Bytes) (ws : List Bytes)
    → length line ≤ width + 1
    → length (fill_line width line ws).0 ≤ width + 1
unfolding fill_line
fill_line-length width line [] h = h
fill_line-length width line (w ∷ ws) h = ground (
  arith,
  fill_line-length width (line ++ w ++ space ∷ []) ws,
  length-append (line ++ w) (space ∷ []),
  length-append line w,
)

fill_line-measure :
    (width : ℕ) (line : Bytes) (ws : List Bytes) → measure (fill_line width line ws).1 ≤ measure ws
unfolding fill_line measure
fill_line-measure width line [] = omega arith
fill_line-measure width line (w ∷ ws) =
    ground (arith, fill_line-measure width (line ++ w ++ space ∷ []) ws)

-- An empty line takes the first word, where that is shorter than the width.
fill_line-progress :
    (width : ℕ) (w : Bytes) (ws : List Bytes)
    → length w < width
    → measure (fill_line width [] (w ∷ ws)).1 < measure (w ∷ ws)
unfolding fill_line measure
fill_line-progress width w ws h = ground (arith, fill_line-measure width ([] ++ w ++ space ∷ []) ws)

-- What is asked of a result with lines: it is there, and each line keeps to the width.
abbrev pub Lines : ℕ → Option (List Bytes) → Type 0
Lines width none = ⊥
Lines width (some lines) = All (λ (l : Bytes). length l ≤ width) lines

Lines-cons :
    (width : ℕ) (l : Bytes) (o : Option (List Bytes))
    → length l ≤ width
    → Lines width o
    → Lines width (o >>= λ lines. some (l ∷ lines))
Lines-cons width l none h k = k
Lines-cons width l (some lines) h k = (h, k)

-- The two ways of a round, by the length of the first word.
pub wrap-short :
    (fuel width : ℕ) (w : Bytes) (ws : List Bytes)
    → ltb (length w) width ≡ true
    → wrap (suc fuel) width (w ∷ ws) ≡ (
        wrap fuel width (fill_line width [] (w ∷ ws)).1 >>= λ lines.
        some (drop_last (fill_line width [] (w ∷ ws)).0 ∷ lines))
unfolding wrap
wrap-short fuel width w ws short = rw (short, wrap) refl

pub wrap-long :
    (fuel width : ℕ) (w : Bytes) (ws : List Bytes)
    → ltb (length w) width ≡ false
    → wrap (suc fuel) width (w ∷ ws)
      ≡ (wrap fuel width (drop width w ∷ ws) >>= λ lines. some (take width w ∷ lines))
unfolding wrap
wrap-long fuel width w ws long = rw (long, wrap) refl

wrap-Lines :
    (fuel width : ℕ) (ws : List Bytes)
    → 0 < width
    → measure ws ≤ fuel
    → Lines width (wrap fuel width ws)
unfolding wrap measure
wrap-Lines fuel width [] h m = tt
wrap-Lines zero width (w ∷ ws) h m = absurd (omega arith)
wrap-Lines (suc fuel) width (w ∷ ws) h m = elim (Bool-cases (ltb (length w) width)) [
  | inl short ↦
      let fits = lt-of-ltb (length w) width short in
      rw (wrap-short fuel width w ws short) (
        Lines-cons width (drop_last (fill_line width [] (w ∷ ws)).0) _
          (omega (
            arith,
            length-drop_last (fill_line width [] (w ∷ ws)).0,
            fill_line-length width [] (w ∷ ws) (omega arith),
          ))
          (wrap-Lines fuel width (fill_line width [] (w ∷ ws)).1 h
            (omega (arith, fill_line-progress width w ws fits))))
  | inr long ↦ rw (wrap-long fuel width w ws long) (
      Lines-cons width (take width w) _ (omega (arith, length-take width w)) (
        wrap-Lines fuel width (drop width w ∷ ws) h
          (omega (arith, length-drop width w, le-of-ltb (length w) width long))))
]

-- Where a line has room for one character, `print` finds lines for every text, each within the width.
pub layout-Lines : (width : ℕ) (bytes : Bytes) → 0 < width → Lines width (layout width bytes)
unfolding layout
layout-Lines width bytes h = elim (Bool-cases (is_empty (normalize bytes))) [
  | inl blank ↦ rw (blank, layout) (h, tt)
  | inr text ↦
      rw (text, layout) (wrap-Lines _ width (split_words (normalize bytes)) h (omega arith))
]

-- Without room for a character no fuel is enough: the loop does not end.
pub wrap-zero : (fuel : ℕ) (w : Bytes) (ws : List Bytes) → wrap fuel 0 (w ∷ ws) ≡ none
unfolding wrap
wrap-zero zero w ws = refl
wrap-zero (suc fuel) w ws = rw (wrap-long fuel 0 w ws (ground arith), wrap-zero fuel w ws) refl
