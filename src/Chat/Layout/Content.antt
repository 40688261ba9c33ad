-- ===== src/Chat/Layout/Content.antt =====
-- What the layout keeps of a text (`TTChat::print`, chat/src/TTChat.cpp): every character that is no
-- whitespace, in order.
use mathlib.Core.List.{reverse-cons, reverse-reverse}
use terminal_teams.Prelude.{
  >>=-eq-some, Bool, Bool-cases, Bytes, List, Option, [], ap, append-nil, append_assoc, arith, drop,
  false, flatten, if◌then◌else◌, inl, inr, is_empty, leb, length, ltb, nil-of-is_empty, refl,
  reverse, some, suc, sym, take, take-append-drop, true, zero, ℕ, ◌++◌, ◌+◌, ◌>>=◌, ◌∙◌, ◌∷◌, ◌≡◌,
}
use terminal_teams.Chat.Layout.{
  space, is_whitespace, skip_whitespace, trim_start, trim_end, squeeze, prepend, split_words,
  fill_line, drop_last, wrap, measure, layout, normalize,
}
use terminal_teams.Chat.Layout.Wrap.{wrap-short, wrap-long}

-- The characters of a text that are no whitespace.
pub visible : Bytes → Bytes
unfolding is_whitespace
visible [] = []
visible (c ∷ cs) = let rest = visible cs in if is_whitespace c then rest else c ∷ rest

visible-append : (xs ys : Bytes) → visible (xs ++ ys) ≡ visible xs ++ visible ys
unfolding visible
visible-append [] ys = refl
visible-append (x ∷ xs) ys = ground (arith, visible-append xs ys)

visible-space : (xs : Bytes) → visible (xs ++ space ∷ []) ≡ visible xs
visible-space xs = visible-append xs (space ∷ []) ∙ (unfold visible in append-nil (visible xs))

reverse-visible-cons :
    (c : ℕ) (xs : Bytes) → reverse (visible xs) ++ visible (c ∷ []) ≡ reverse (visible (c ∷ xs))
unfolding visible
reverse-visible-cons c xs = elim (Bool-cases (is_whitespace c)) [
  | inl e ↦ rw e (append-nil (reverse (visible xs)))
  | inr e ↦ rw e (sym (reverse-cons c (visible xs)))
]

visible-reverse : (xs : Bytes) → visible (reverse xs) ≡ reverse (visible xs)
visible-reverse [] = unfold visible in refl
visible-reverse (x ∷ xs) =
    ap visible (reverse-cons x xs)
    ∙ visible-append (reverse xs) (x ∷ [])
    ∙ rw (visible-reverse xs) (reverse-visible-cons x xs)

visible-skip_whitespace : (xs : Bytes) → visible (skip_whitespace xs) ≡ visible xs
unfolding visible skip_whitespace
visible-skip_whitespace [] = refl
visible-skip_whitespace (x ∷ xs) = ground (arith, visible-skip_whitespace xs)

visible-trim_start : (xs : Bytes) → visible (trim_start xs) ≡ visible xs
visible-trim_start xs = elim (Bool-cases (is_empty (skip_whitespace xs))) [
  | inl e ↦ unfold trim_start in (rw e refl)
  | inr e ↦ unfold trim_start in (rw e (visible-skip_whitespace xs))
]

visible-trim_end : (xs : Bytes) → visible (trim_end xs) ≡ visible xs
unfolding trim_end
visible-trim_end xs =
    visible-reverse (trim_start (reverse xs))
    ∙ ap reverse (visible-trim_start (reverse xs) ∙ visible-reverse xs)
    ∙ reverse-reverse (visible xs)

visible-squeeze : (skipping : Bool) (xs : Bytes) → visible (squeeze skipping xs) ≡ visible xs
unfolding visible squeeze
visible-squeeze skipping [] = refl
visible-squeeze skipping (x ∷ xs) = ground (arith, visible-squeeze (is_whitespace x) xs)

visible-normalize : (xs : Bytes) → visible (normalize xs) ≡ visible xs
unfolding normalize
visible-normalize xs =
    visible-squeeze false (trim_end (trim_start xs))
    ∙ visible-trim_end (trim_start xs)
    ∙ visible-trim_start xs

flatten-prepend : (c : ℕ) (ws : List Bytes) → flatten (prepend c ws) ≡ c ∷ flatten ws
unfolding prepend
flatten-prepend c [] = refl
flatten-prepend c (w ∷ ws) = refl

visible-split_words : (xs : Bytes) → visible (flatten (split_words xs)) ≡ visible xs
unfolding visible split_words
visible-split_words [] = refl
visible-split_words (x ∷ xs) =
    ground (arith, visible-split_words xs, flatten-prepend x (split_words xs))

-- A line that ends with a space.
abbrev EndsWithSpace : Bytes → Type 0
EndsWithSpace line = (before : Bytes) × (line ≡ before ++ space ∷ [])

fill_line-EndsWithSpace :
    (width : ℕ) (line : Bytes) (ws : List Bytes)
    → EndsWithSpace line
    → EndsWithSpace (fill_line width line ws).0
unfolding fill_line
fill_line-EndsWithSpace width line [] h = h
fill_line-EndsWithSpace width line (w ∷ ws) h =
    elim (Bool-cases (leb (length line + length w) width)) [
      | inl e ↦ rw e (fill_line-EndsWithSpace width (line ++ w ++ space ∷ []) ws (line ++ w, refl))
      | inr e ↦ rw e h
    ]

-- The words on the line and the words left hold the same characters as before.
visible-fill_line :
    (width : ℕ) (line : Bytes) (ws : List Bytes)
    → visible (fill_line width line ws).0 ++ visible (flatten (fill_line width line ws).1)
      ≡ visible line ++ visible (flatten ws)
unfolding fill_line
visible-fill_line width line [] = refl
visible-fill_line width line (w ∷ ws) = elim (Bool-cases (leb (length line + length w) width)) [
  | inl e ↦ rw e (
      visible-fill_line width (line ++ w ++ space ∷ []) ws
      ∙ rw (visible-space (line ++ w), visible-append line w, visible-append w (flatten ws))
          (append_assoc (visible line) (visible w) (visible (flatten ws))))
  | inr e ↦ rw e refl
]

drop_last-append : (line : Bytes) (c : ℕ) → drop_last (line ++ c ∷ []) ≡ line
unfolding drop_last
drop_last-append [] c = refl
drop_last-append (x ∷ []) c = refl
drop_last-append (x ∷ y ∷ ys) c = ap (◌∷◌ x) (drop_last-append (y ∷ ys) c)

visible-drop_last : (line : Bytes) → EndsWithSpace line → visible (drop_last line) ≡ visible line
visible-drop_last line (before, e) =
    rw e (rw (drop_last-append before space) (sym (visible-space before)))

-- The first line of a round that fills one.
first_line-EndsWithSpace :
    (width : ℕ) (w : Bytes) (ws : List Bytes)
    → ltb (length w) width ≡ true
    → EndsWithSpace (fill_line width [] (w ∷ ws)).0
unfolding fill_line
first_line-EndsWithSpace width w ws short =
    let fits : leb (0 + length w) width ≡ true = ground arith in
    rw fits (fill_line-EndsWithSpace width (w ++ space ∷ []) ws (w, refl))

-- One round: its line and the lines of the other rounds.
visible-round :
    (o : Option (List Bytes)) (line : Bytes) (lines ws ws' : List Bytes)
    → (o >>= λ ls. some (line ∷ ls)) ≡ some lines
    → ((ls : List Bytes) → o ≡ some ls → visible (flatten ls) ≡ visible (flatten ws'))
    → visible line ++ visible (flatten ws') ≡ visible (flatten ws)
    → visible (flatten lines) ≡ visible (flatten ws)
visible-round o line lines ws ws' e ih h =
    let (ls, made, same_lines) = >>=-eq-some o (λ ls. some (line ∷ ls)) e in
    let lines_eq : lines ≡ line ∷ ls = cc in
    rw lines_eq (visible-append line (flatten ls) ∙ ap (◌++◌ (visible line)) (ih ls made) ∙ h)

visible-wrap :
    (fuel width : ℕ) (ws lines : List Bytes)
    → wrap fuel width ws ≡ some lines
    → visible (flatten lines) ≡ visible (flatten ws)
unfolding visible wrap
visible-wrap fuel width [] lines e = let e' : lines ≡ [] = cc in rw e'
visible-wrap zero width (w ∷ ws) lines e = cc
visible-wrap (suc fuel) width (w ∷ ws) lines e = elim (Bool-cases (ltb (length w) width)) [
  | inl short ↦
      visible-round _ _ lines (w ∷ ws) (fill_line width [] (w ∷ ws)).1
        (rw (wrap-short fuel width w ws short) at e)
        (λ ls made. visible-wrap fuel width (fill_line width [] (w ∷ ws)).1 ls made)
        (rw (visible-drop_last _ (first_line-EndsWithSpace width w ws short))
          (visible-fill_line width [] (w ∷ ws)))
  | inr long ↦
      visible-round _ _ lines (w ∷ ws) (drop width w ∷ ws)
        (rw (wrap-long fuel width w ws long) at e)
        (λ ls made. visible-wrap fuel width (drop width w ∷ ws) ls made)
        (sym (visible-append (take width w) (drop width w ++ flatten ws))
          ∙ ap visible (
              sym (append_assoc (take width w) (drop width w) (flatten ws))
              ∙ ap (λ v. v ++ flatten ws) (take-append-drop width w)))
]

layout-blank :
    (width : ℕ) (bytes : Bytes)
    → is_empty (normalize bytes) ≡ true
    → layout width bytes ≡ some ((space ∷ []) ∷ [])
unfolding layout
layout-blank width bytes blank = rw (blank, layout) refl

pub layout-text :
    (width : ℕ) (bytes : Bytes)
    → is_empty (normalize bytes) ≡ false
    → layout width bytes
      ≡ wrap (measure (split_words (normalize bytes))) width (split_words (normalize bytes))
unfolding layout
layout-text width bytes text = rw (text, layout) refl

-- The lines that `print` makes of a text hold its characters that are no whitespace, all of them and
-- in order.
pub visible-layout :
    (width : ℕ) (bytes : Bytes) (lines : List Bytes)
    → layout width bytes ≡ some lines
    → visible (flatten lines) ≡ visible bytes
visible-layout width bytes lines e = elim (Bool-cases (is_empty (normalize bytes))) [
  | inl blank ↦
      let made : some ((space ∷ []) ∷ []) ≡ some lines = sym (layout-blank width bytes blank) ∙ e in
      let lines_eq : lines ≡ (space ∷ []) ∷ [] = cc in
      rw lines_eq (
        unfold visible in
        ap visible (sym (nil-of-is_empty (normalize bytes) blank)) ∙ visible-normalize bytes)
  | inr text ↦
      visible-wrap _ width (split_words (normalize bytes)) lines
        (sym (layout-text width bytes text) ∙ e)
      ∙ visible-split_words (normalize bytes)
      ∙ visible-normalize bytes
]
