-- ===== src/Delivery.antt =====
-- crates/common/src/services/resolution_delivery.rs: what is pasted into a worktree's agent pane for a
-- confirmed resolution. A loop over an index is a function of the characters that are left; the two
-- loops that jump ahead take fuel, the number of characters, of which each round uses one at least.
pub mod Controls
pub mod Fence
use sebenza.Base.{
  is_control, text_beq, ℕ, zero, suc, ◌+◌, ◌-◌, ◌*◌, max, Text, codes, Bool, true, false, not, ◌&&◌,
  ◌||◌, Option, none, some, List, [], ◌∷◌, ◌++◌, length, take, contains, is_empty, is_some_and,
  is_whitespace, keep_if, ◌==◌, nat_eq, text_eq, leb, ltb, if◌then◌else◌,
}

abbrev pub max_paste_chars : ℕ
max_paste_chars = 8000

abbrev pub truncated_marker : Text
truncated_marker = codes "[truncated by sebenza]"

-- Past the parameters and the final byte of a CSI sequence.
unfoldable pub skip_csi : Text → Text
skip_csi [] = []
skip_csi (c ∷ rest) = if leb 0x40 c && leb c 0x7e then rest else skip_csi rest

-- `chars.get(i) == Some(&c)`
abbrev pub next_is : Text → ℕ → Bool
next_is [] c = false
next_is (d ∷ rest) c = d == c

abbrev pub drop_one : Text → Text
drop_one [] = []
drop_one (d ∷ rest) = rest

-- Past BEL, ST (U+9C) or ESC \.
unfoldable pub skip_string : Text → Text
skip_string [] = []
skip_string (c ∷ rest) =
    if c == 0x07 || c == 0x9c
    then rest
    else if c == 0x1b && next_is rest 0x5c
    then drop_one rest
    else skip_string rest

-- What is left after ESC and the character `next`.
unfoldable pub after_escape : ℕ → Text → Text
unfolding contains
after_escape next rest =
    if next == b'['
    then skip_csi rest
    else if contains (codes "]PX^_") next
    then skip_string rest
    else if contains (codes "()*+#%") next
    then drop_one rest
    else rest

-- The eight-bit forms of OSC, DCS, SOS, PM and APC.
unfoldable pub is_c1_string : ℕ → Bool
is_c1_string c = c == 0x9d || c == 0x90 || c == 0x98 || c == 0x9e || c == 0x9f

-- What is left after `c` and all that it introduces; `rest` stands behind it.
unfoldable pub remaining : ℕ → Text → Text
unfolding after_escape is_c1_string skip_csi skip_string
remaining c rest =
    if c == 0x1b
    then (elim rest [ [] ↦ [] | next ∷ t ↦ after_escape next t ])
    else if c == 0x9b
    then skip_csi rest
    else if is_c1_string c
    then skip_string rest
    else rest

-- What `c` puts out.
unfoldable pub emitted : ℕ → Text → Text
unfolding is_c1_string is_control
emitted c rest =
    if c == 0x1b || c == 0x9b || is_c1_string c
    then []
    else if c == 0x0d
    then (if next_is rest 0x0a then [] else 0x0a ∷ [])
    else if c == 0x0a || c == 0x09
    then c ∷ []
    else if is_control c
    then []
    else c ∷ []

unfoldable pub strip_controls : ℕ → Text → Text
strip_controls zero s = []
strip_controls (suc fuel) [] = []
strip_controls (suc fuel) (c ∷ rest) = emitted c rest ++ strip_controls fuel (remaining c rest)

unfoldable pub strip_terminal_controls : Text → Text
strip_terminal_controls text = strip_controls (length text) text

abbrev pub tmux_keys : List Text
tmux_keys =
    codes "Enter"
    ∷ codes "Escape"
    ∷ codes "Tab"
    ∷ codes "BTab"
    ∷ codes "BSpace"
    ∷ codes "Space"
    ∷ codes "Up"
    ∷ codes "Down"
    ∷ codes "Left"
    ∷ codes "Right"
    ∷ codes "Home"
    ∷ codes "End"
    ∷ codes "PageUp"
    ∷ codes "PageDown"
    ∷ codes "PgUp"
    ∷ codes "PgDn"
    ∷ codes "PPage"
    ∷ codes "NPage"
    ∷ codes "IC"
    ∷ codes "DC"
    ∷ codes "Insert"
    ∷ codes "Delete"
    ∷ []

-- The value of a run of ASCII digits, with the digits read so far; `none` at any other character.
unfoldable pub digits_value : ℕ → Text → Option ℕ
digits_value n [] = some n
digits_value n (c ∷ s) =
    let rest = digits_value (n * 10 + (c - b'0')) s in
    if leb b'0' c && leb c b'9' then rest else none

-- `s.parse::<u8>().ok()`: an optional `+`, then at least one digit, and a value below 256.
unfoldable pub parse_u8 : Text → Option ℕ
unfolding digits_value is_empty
parse_u8 s =
    let digits = if next_is s b'+' then drop_one s else s in
    if is_empty digits then none else keep_if (λ n. ltb n 256) (digits_value 0 digits)

-- A function key, `F1` to `F24`.
unfoldable pub is_function_key : Text → Bool
unfolding parse_u8
is_function_key [] = false
is_function_key (c ∷ n) = c == b'F' && is_some_and (parse_u8 n) (λ k. leb 1 k && leb k 24)

-- The key of a chord, once its modifiers are gone.
unfoldable pub is_key_name : Text → Bool
unfolding is_function_key contains text_beq
is_key_name rest = length rest == 1 || is_function_key rest || contains tmux_keys rest

-- `C-`, `M-` or `S-`, with something behind it
unfoldable pub is_modifier : ℕ → ℕ → Text → Bool
unfolding is_empty
is_modifier c d tail = (c == b'C' || c == b'M' || c == b'S') && d == b'-' && not (is_empty tail)

-- The rest after the modifiers, and whether there was one.
unfoldable pub after_modifiers : Bool → Text → Bool × Text
unfolding is_modifier
after_modifiers seen (c ∷ d ∷ tail) =
    let deeper = after_modifiers true tail in
    if is_modifier c d tail then deeper else (seen, c ∷ d ∷ tail)
after_modifiers seen s = (seen, s)

unfoldable pub is_key_chord : Text → Bool
unfolding after_modifiers is_key_name is_empty
is_key_chord token =
    let (modified, rest) = after_modifiers false token in
    modified && not (is_empty rest) && is_key_name rest

-- Past the bracket that closes the format: `depth` of them are open.
unfoldable pub skip_format : ℕ → ℕ → ℕ → Text → Text
skip_format open_ close depth [] = []
skip_format open_ close depth (c ∷ rest) =
    let deeper = skip_format open_ close (depth + 1) rest in
    let shallower = skip_format open_ close (depth - 1) rest in
    let same = skip_format open_ close depth rest in
    if c == open_
    then deeper
    else if c == close
    then (if depth == 1 then rest else shallower)
    else same

-- The text without `#{…}` and `#(…)`.
unfoldable pub strip_formats : ℕ → Text → Text
strip_formats zero s = []
strip_formats (suc fuel) [] = []
strip_formats (suc fuel) (c ∷ rest) =
    let inside = strip_formats fuel (skip_format b'{' b'}' 0 rest) in
    let called = strip_formats fuel (skip_format b'(' b')' 0 rest) in
    let kept = c ∷ strip_formats fuel rest in
    if c == b'#' && next_is rest b'{'
    then inside
    else if c == b'#' && next_is rest b'('
    then called
    else kept

-- A token, unless it is a chord.
unfoldable pub kept_token : Text → Text
kept_token token = if is_key_chord token then [] else token

-- Whitespace as it is, and the tokens between it that are no chords.
unfoldable pub strip_chords : Text → Text → Text
strip_chords token [] = kept_token token
strip_chords token (c ∷ rest) =
    let next = strip_chords [] rest in
    let longer = strip_chords (token ++ c ∷ []) rest in
    if is_whitespace c then kept_token token ++ c ∷ next else longer

unfoldable pub strip_tmux_syntax : Text → Text
strip_tmux_syntax text = strip_chords [] (strip_formats (length text) text)

-- The cut of `sanitize_for_paste`.
unfoldable pub cap_chars : ℕ → Text → Text
cap_chars limit stripped =
    if leb (length stripped) limit then stripped else take limit stripped ++ 0x0a ∷ truncated_marker

unfoldable pub sanitize_for_paste : Text → Text
sanitize_for_paste text =
    cap_chars max_paste_chars (strip_tmux_syntax (strip_terminal_controls text))

-- The longest run of backticks; `run` of them end at this point.
unfoldable pub longest_run : ℕ → ℕ → Text → ℕ
longest_run longest run [] = longest
longest_run longest run (c ∷ rest) =
    let run' = if c == b'`' then run + 1 else 0 in longest_run (max longest run') run' rest

abbrev pub repeat : ℕ → ℕ → Text
repeat zero c = []
repeat (suc n) c = c ∷ repeat n c

unfoldable pub fence_for : Text → Text
fence_for clean = repeat (max (longest_run 0 0 clean + 1) 3) b'`'

unfoldable pub prepare_resolution : Text → Text → Text
prepare_resolution request_id text =
    let clean = sanitize_for_paste text in
    let fence = fence_for clean in
    codes "The operator answered your inbox request "
    ++ (sanitize_for_paste request_id
        ++ (codes ". Their resolution is the fenced text below:"
            ++ (0x0a ∷ fence ++ (codes "text" ++ (0x0a ∷ clean ++ (0x0a ∷ fence ++ 0x0a ∷ []))))))
