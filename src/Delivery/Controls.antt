-- ===== src/Delivery/Controls.antt =====
-- What can reach the pane, and what reaches it unchanged.
use sebenza.Base.{
  is_control, length-take, length-append, ℕ, zero, suc, ◌+◌, ◌-◌, ◌≤◌, Text, ◌≡◌, refl, Bool, true,
  false, not, ◌&&◌, ◌||◌, [], ◌∷◌, ◌++◌, length, take, all, all-append, all-take, ◌==◌, nat_eq,
  arith, append_assoc, append-nil,
}
use sebenza.Delivery.{
  is_modifier, cap_chars, after_modifiers, is_c1_string, remaining, emitted, strip_controls,
  strip_terminal_controls, skip_format, strip_formats, kept_token, strip_chords, strip_tmux_syntax,
  sanitize_for_paste, max_paste_chars, truncated_marker, is_key_chord,
}

-- A character that a terminal displays, or a newline or a tab.
unfoldable pub is_displayed : ℕ → Bool
unfolding is_control
is_displayed c = not (is_control c) || c == 0x0a || c == 0x09

all-emitted : (c : ℕ) (rest : Text) → all is_displayed (emitted c rest) ≡ true
unfolding emitted is_displayed all
all-emitted c rest = ground arith

all-strip_controls : (fuel : ℕ) (s : Text) → all is_displayed (strip_controls fuel s) ≡ true
unfolding strip_controls
all-strip_controls zero s = unfold all in refl
all-strip_controls (suc fuel) [] = unfold all in refl
all-strip_controls (suc fuel) (c ∷ rest) = ground (
  arith,
  all-append is_displayed (emitted c rest) (strip_controls fuel (remaining c rest)),
  all-emitted c rest,
  all-strip_controls fuel (remaining c rest),
)

-- The tmux pass only leaves characters out.
module _ (p : ℕ → Bool) where
  all-skip_format : (o c d : ℕ) (s : Text) → all p s ≡ true → all p (skip_format o c d s) ≡ true
  unfolding skip_format all
  all-skip_format o c d [] h = refl
  all-skip_format o c d (x ∷ s) h =
      ground (
        arith,
        all-skip_format o c (d + 1) s,
        all-skip_format o c (d - 1) s,
        all-skip_format o c d s,
      )

  all-strip_formats : (fuel : ℕ) (s : Text) → all p s ≡ true → all p (strip_formats fuel s) ≡ true
  unfolding strip_formats all
  all-strip_formats zero s h = refl
  all-strip_formats (suc fuel) [] h = refl
  all-strip_formats (suc fuel) (c ∷ s) h = ground (
    arith,
    all-strip_formats fuel (skip_format b'{' b'}' 0 s),
    all-strip_formats fuel (skip_format b'(' b')' 0 s),
    all-strip_formats fuel s,
    all-skip_format b'{' b'}' 0 s,
    all-skip_format b'(' b')' 0 s,
  )

  all-kept_token : (token : Text) → all p token ≡ true → all p (kept_token token) ≡ true
  unfolding kept_token all
  all-kept_token token h = ground arith

  all-strip_chords :
      (token s : Text) → all p token ≡ true → all p s ≡ true → all p (strip_chords token s) ≡ true
  unfolding strip_chords all
  all-strip_chords token [] ht h = all-kept_token token ht
  all-strip_chords token (c ∷ s) ht h = ground (
    arith,
    all-kept_token token,
    all-append p (kept_token token) (c ∷ strip_chords [] s),
    all-append p token (c ∷ []),
    all-strip_chords [] s,
    all-strip_chords (token ++ c ∷ []) s,
  )

all-strip_tmux_syntax :
    (text : Text) → all is_displayed (strip_tmux_syntax (strip_terminal_controls text)) ≡ true
unfolding strip_tmux_syntax strip_terminal_controls
all-strip_tmux_syntax text =
    all-strip_chords is_displayed [] _ (unfold all in refl)
      (all-strip_formats is_displayed _ _ (all-strip_controls (length text) text))

all-marker : all is_displayed (0x0a ∷ truncated_marker) ≡ true
unfolding all is_displayed
all-marker = refl

all-cap_chars :
    (limit : ℕ) (s : Text) → all is_displayed s ≡ true → all is_displayed (cap_chars limit s) ≡ true
unfolding cap_chars
all-cap_chars limit s h = ground (
  arith,
  all-append is_displayed (take limit s) (0x0a ∷ truncated_marker),
  all-take is_displayed limit s,
  all-marker,
)

length-cap_chars :
    (limit : ℕ) (s : Text) → length (cap_chars limit s) ≤ limit + 1 + length truncated_marker
unfolding cap_chars
length-cap_chars limit s =
    ground (arith, length-append (take limit s) (0x0a ∷ truncated_marker), length-take limit s)

-- Whatever the text, every character that is pasted for it is one that a terminal displays, a newline
-- or a tab: no escape character and no other control gets through. And at most
-- `max_paste_chars` characters, a newline and the marker are pasted.
pub sanitize_for_paste-displayed :
    (text : Text)
    → (all is_displayed (sanitize_for_paste text) ≡ true)
      × (length (sanitize_for_paste text) ≤ max_paste_chars + 1 + length truncated_marker)
unfolding sanitize_for_paste
sanitize_for_paste-displayed text = (
  all-cap_chars max_paste_chars _ (all-strip_tmux_syntax text),
  length-cap_chars max_paste_chars _,
)

-- Harmless text: only characters that a terminal displays, and no `#` or `-`.
unfoldable pub is_plain : ℕ → Bool
unfolding is_control
is_plain c = (not (is_control c) || c == 0x0a || c == 0x09) && not (c == b'#') && not (c == b'-')

emitted-plain :
    (c : ℕ) (rest : Text)
    → is_plain c ≡ true
    → (emitted c rest ≡ c ∷ []) × (remaining c rest ≡ rest)
unfolding emitted remaining is_plain is_c1_string
emitted-plain c rest h = ground arith

strip_controls-plain : (s : Text) → all is_plain s ≡ true → strip_controls (length s) s ≡ s
unfolding strip_controls all
strip_controls-plain [] h = refl
strip_controls-plain (c ∷ s) h = ground (arith, emitted-plain c s, strip_controls-plain s)

not-hash : (c : ℕ) → is_plain c ≡ true → (c == b'#') ≡ false
unfolding is_plain
not-hash c h = ground arith

strip_formats-plain : (s : Text) → all is_plain s ≡ true → strip_formats (length s) s ≡ s
unfolding strip_formats all
strip_formats-plain [] h = refl
strip_formats-plain (c ∷ s) h = ground (arith, not-hash c, strip_formats-plain s)

is_modifier-plain : (c d : ℕ) (s : Text) → is_plain d ≡ true → is_modifier c d s ≡ false
unfolding is_modifier is_plain
is_modifier-plain c d s h = ground arith

is_key_chord-plain : (s : Text) → all is_plain s ≡ true → is_key_chord s ≡ false
unfolding is_key_chord after_modifiers all
is_key_chord-plain [] h = refl
is_key_chord-plain (c ∷ []) h = refl
is_key_chord-plain (c ∷ d ∷ s) h = ground (arith, is_modifier-plain c d s)

strip_chords-plain :
    (token s : Text)
    → all is_plain token ≡ true
    → all is_plain s ≡ true
    → strip_chords token s ≡ token ++ s
unfolding strip_chords kept_token all
strip_chords-plain token [] ht h = rw (is_key_chord-plain token ht, append-nil)
strip_chords-plain token (c ∷ s) ht h = ground (
  arith,
  is_key_chord-plain token ht,
  strip_chords-plain [] s,
  strip_chords-plain (token ++ c ∷ []) s,
  all-append is_plain token (c ∷ []),
  append_assoc token (c ∷ []) s,
)

cap_chars-short : (limit : ℕ) (s : Text) → length s ≤ limit → cap_chars limit s ≡ s
unfolding cap_chars
cap_chars-short limit s h = ground arith

-- A text of at most `max_paste_chars` characters that holds no control but newline and tab, no `#` and
-- no `-` is pasted as it is.
sanitize_for_paste-plain :
    (text : Text)
    → all is_plain text ≡ true
    → length text ≤ max_paste_chars
    → sanitize_for_paste text ≡ text
unfolding sanitize_for_paste strip_tmux_syntax strip_terminal_controls
sanitize_for_paste-plain text h short =
    rw
      (
        strip_controls-plain text h,
        strip_formats-plain text h,
        strip_chords-plain [] text (unfold all in refl) h,
      )
      (cap_chars-short max_paste_chars text short)
