-- ===== src/Chat/Layout/Tests.antt =====
-- Runs of the layout, and instances of what is proved of it.
use terminal_teams.Prelude.{[], arith, codes, flatten, none, refl, some, ◌∷◌, ◌≡◌}
use terminal_teams.Chat.Layout.{
  layout, normalize, trim_start, trim_end, squeeze, skip_whitespace, split_words, wrap, measure,
  fill_line, drop_last,
}
use terminal_teams.Chat.Layout.Wrap.{Lines, layout-Lines, wrap-zero}
use terminal_teams.Chat.Layout.Content.{visible, visible-layout}

layout_words :
    layout 7 (codes "  ab  cd efghijklm  n ")
    ≡ some (codes "ab cd" ∷ codes "efghijk" ∷ codes "lm n" ∷ [])
unfolding layout normalize trim_start trim_end squeeze skip_whitespace split_words wrap measure
    fill_line drop_last
layout_words = refl

-- A word of exactly the width is followed by a line with nothing on it.
layout_full_word : layout 5 (codes "abcde") ≡ some (codes "abcde" ∷ [] ∷ [])
unfolding layout normalize trim_start trim_end squeeze skip_whitespace split_words wrap measure
    fill_line drop_last
layout_full_word = refl

layout_blank : layout 5 (codes "  ") ≡ some (codes " " ∷ [])
unfolding layout normalize trim_start trim_end squeeze skip_whitespace split_words wrap measure
    fill_line drop_last
layout_blank = refl

layout-Lines_example : Lines 5 (layout 5 (codes "ab cd"))
layout-Lines_example = layout-Lines 5 (codes "ab cd") (omega arith)

wrap-zero_example : wrap 3 0 (codes "ab" ∷ codes "cd" ∷ []) ≡ none
wrap-zero_example = wrap-zero 3 (codes "ab") (codes "cd" ∷ [])

visible-layout_example :
    visible (flatten (codes "ab cd" ∷ codes "efghijk" ∷ codes "lm n" ∷ []))
    ≡ visible (codes "  ab  cd efghijklm  n ")
visible-layout_example =
    visible-layout 7 (codes "  ab  cd efghijklm  n ")
      (codes "ab cd" ∷ codes "efghijk" ∷ codes "lm n" ∷ []) layout_words
