-- ===== src/Teletekst/Style.antt =====
-- firmware/src/teletekst.c: the tags of a page's content, which set the colours.
pub mod Bounds
pub mod Names
use p2000t_teletekst_cartrid.Prelude.{
  ℕ, zero, suc, ◌+◌, ◌-◌, Bool, true, false, not, ◌&&◌, ◌||◌, List, [], ◌∷◌, Option, none, some,
  get_or, set, length, drop, ltb, ◌==◌, if◌then◌else◌, ◌>>=◌,
}
use p2000t_teletekst_cartrid.Teletekst.Json.{starts_with}
use p2000t_teletekst_cartrid.Teletekst.Row.{DisplayState, initial}

-- The value of a name in a table: `strlen` and `memcmp` for each entry, in order.
abbrev pub same_text : List ℕ → List ℕ → Bool
same_text entry name = length entry == length name && starts_with name entry

unfoldable pub lookup_name : List (List ℕ × ℕ) → List ℕ → Option ℕ
lookup_name [] name = none
lookup_name ((entry, value) ∷ entries) name =
    let later = lookup_name entries name in if same_text entry name then some value else later

abbrev colours : List (List ℕ × ℕ)
colours =
    (b'b' ∷ b'l' ∷ b'a' ∷ b'c' ∷ b'k' ∷ [], 0)
    ∷ (b'r' ∷ b'e' ∷ b'd' ∷ [], 1)
    ∷ (b'g' ∷ b'r' ∷ b'e' ∷ b'e' ∷ b'n' ∷ [], 2)
    ∷ (b'y' ∷ b'e' ∷ b'l' ∷ b'l' ∷ b'o' ∷ b'w' ∷ [], 3)
    ∷ (b'b' ∷ b'l' ∷ b'u' ∷ b'e' ∷ [], 4)
    ∷ (b'm' ∷ b'a' ∷ b'g' ∷ b'e' ∷ b'n' ∷ b't' ∷ b'a' ∷ [], 5)
    ∷ (b'c' ∷ b'y' ∷ b'a' ∷ b'n' ∷ [], 6)
    ∷ (b'w' ∷ b'h' ∷ b'i' ∷ b't' ∷ b'e' ∷ [], 7)
    ∷ []

-- `none` is -1.
pub colour_from_class : List ℕ → Option ℕ
unfolding lookup_name
colour_from_class name = lookup_name colours name

-- `while (offset < length && classes[offset] == ' ')`
skip_spaces : List ℕ → List ℕ
skip_spaces [] = []
skip_spaces (c ∷ cs) = if c == b' ' then skip_spaces cs else c ∷ cs

-- The bytes in front of the first that is a stop, and the rest from there.
break_at : (ℕ → Bool) → List ℕ → List ℕ × List ℕ
break_at stop [] = ([], [])
break_at stop (c ∷ cs) =
    let (name, rest) = break_at stop cs in if stop c then ([], c ∷ cs) else (c ∷ name, rest)

set_colour : Bool → Option ℕ → DisplayState → DisplayState
set_colour background none style = style
set_colour background (some colour) style =
    if background
    then record style { background = colour }
    else record style { foreground = colour }

apply_class : List ℕ → DisplayState → DisplayState
apply_class name style =
    let background = ltb 3 (length name) && starts_with name (b'b' ∷ b'g' ∷ b'-' ∷ []) in
    set_colour background (colour_from_class (if background then drop 3 name else name)) style

-- The loop over the names, with fuel.
pub apply_names : ℕ → List ℕ → DisplayState → DisplayState
apply_names zero classes style = style
apply_names (suc fuel) classes style =
    let (name, rest) = break_at (λ c. c == b' ') (skip_spaces classes) in
    let later = apply_names fuel rest (apply_class name style) in
    if length name == 0 then style else later

-- Each name takes a byte, so the length is fuel enough.
unfoldable pub apply_classes : List ℕ → DisplayState → DisplayState
unfolding apply_names apply_class set_colour colour_from_class skip_spaces break_at
apply_classes classes style = apply_names (length classes) classes style

abbrev pub stack_depth : ℕ
stack_depth = 8

-- The style, and the saved styles with their count.
pub record Markup : Type 0 where
  pub style : DisplayState
  pub stack : List DisplayState
  pub depth : ℕ

-- `span` or `a`
is_styled : List ℕ → Bool
is_styled name = same_text (b's' ∷ b'p' ∷ b'a' ∷ b'n' ∷ []) name || same_text (b'a' ∷ []) name

-- `class="`
abbrev class_key : List ℕ
class_key = b'c' ∷ b'l' ∷ b'a' ∷ b's' ∷ b's' ∷ b'=' ∷ b'"' ∷ []

-- Behind `class="`: the names up to the closing quote.
apply_attribute : List ℕ → DisplayState → Option DisplayState
apply_attribute cs style =
    let (classes, rest) = break_at (λ c. c == b'"') cs in
    if length rest == 0 then none else some (apply_classes classes style)

-- The loop that looks for the attribute.
find_class : List ℕ → DisplayState → Option DisplayState
find_class [] style = some style
find_class (c ∷ cs) style =
    let later = find_class cs style in
    if not (ltb 7 (length (c ∷ cs)))
    then some style
    else if starts_with (c ∷ cs) class_key
    then apply_attribute (drop 7 (c ∷ cs)) style
    else later

-- What the `/` in front of a name says, and the bytes behind it.
is_closing : List ℕ → Bool × List ℕ
is_closing [] = (false, [])
is_closing (c ∷ cs) = if c == b'/' then (true, cs) else (false, c ∷ cs)

close_element : Markup → Option Markup
close_element m =
    if m.depth == 0
    then none
    else some (record {
      style = get_or m.stack (m.depth - 1) initial;
      stack = m.stack;
      depth = m.depth - 1;
    })

open_element : List ℕ → Markup → Option Markup
open_element rest m =
    if not (ltb m.depth stack_depth)
    then none
    else find_class rest m.style >>= λ style.
        some (record { style = style; stack = set m.stack m.depth m.style; depth = m.depth + 1 })

-- `none` is false.
unfoldable pub parse_tag : List ℕ → Markup → Option Markup
unfolding skip_spaces break_at is_styled close_element open_element find_class apply_attribute
    is_closing apply_classes
parse_tag tag m =
    let (closing, behind) = is_closing (skip_spaces tag) in
    let (name, rest) = break_at (λ c. c == b' ' || c == b'/' || c == b'>') behind in
    if not (is_styled name)
    then some m
    else if closing
    then close_element m
    else open_element rest m
