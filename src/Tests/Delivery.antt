-- ===== src/Tests/Delivery.antt =====
-- Hostile and harmless texts for the pane.
use sebenza.Base.{
  ◌+◌, ◌≤◌, Text, codes, ◌≡◌, refl, true, false, [], ◌∷◌, ◌++◌, length, all, ◌==◌, nat_eq, contains,
  text_beq, is_whitespace,
}
use sebenza.Delivery.{
  sanitize_for_paste, strip_tmux_syntax, strip_terminal_controls, strip_formats, strip_chords,
  strip_controls, emitted, remaining, skip_format, kept_token, is_key_chord, max_paste_chars,
  truncated_marker, fence_for, longest_run,
}
use sebenza.Delivery.Controls.{is_displayed, sanitize_for_paste-displayed}
use sebenza.Delivery.Fence.{has_run, fence_for-unclosable}

-- ESC [ 31 m red, a tmux format, a chord and a bell
abbrev hostile : Text
hostile = 0x1b ∷ codes "[31mred #{pane_id} C-c end" ++ 0x07 ∷ []

hostile-stripped : strip_tmux_syntax (strip_terminal_controls hostile) ≡ codes "red   end"
unfolding strip_tmux_syntax strip_terminal_controls strip_controls emitted remaining strip_formats
    skip_format strip_chords kept_token is_key_chord is_whitespace contains text_beq
hostile-stripped = refl

abbrev ticks : Text
ticks = codes "a ```` b"

fence_for-ticks : fence_for ticks ≡ codes "`````"
unfolding fence_for longest_run
fence_for-ticks = refl

sanitize_for_paste-displayed_example :
    (all is_displayed (sanitize_for_paste hostile) ≡ true)
    × (length (sanitize_for_paste hostile) ≤ max_paste_chars + 1 + length truncated_marker)
sanitize_for_paste-displayed_example = sanitize_for_paste-displayed hostile

fence_for-unclosable_example :
    (all (λ c. c == b'`') (fence_for ticks) ≡ true)
    × (3 ≤ length (fence_for ticks))
    × (has_run (length (fence_for ticks)) ticks ≡ false)
fence_for-unclosable_example = fence_for-unclosable ticks
