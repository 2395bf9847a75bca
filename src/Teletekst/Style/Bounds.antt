-- ===== src/Teletekst/Style/Bounds.antt =====
-- firmware/src/teletekst.c: the colours and the nesting stay in range.
use p2000t_teletekst_cartrid.Prelude.{
  ℕ, zero, suc, ◌+◌, ◌-◌, ◌≤◌, Bool, not, ◌||◌, List, [], ◌∷◌, Option, none, some, get_or, set,
  length, drop, All, ltb, ◌==◌, if◌then◌else◌, ◌>>=◌, >>=-eq-some, ◌≡◌, refl, sym, ◌∙◌, arith,
  Bool-cases, inl, inr, length-set,
}
use p2000t_teletekst_cartrid.Teletekst.Row.{DisplayState, initial}
use p2000t_teletekst_cartrid.Teletekst.Style.{
  lookup_name, colours, colour_from_class, skip_spaces, break_at, set_colour, apply_class,
  apply_names, apply_classes, stack_depth, Markup, is_styled, apply_attribute, find_class,
  is_closing, close_element, open_element, parse_tag,
}

abbrev IsColour : ℕ → Type 0
IsColour c = c ≤ 7

-- A table of colours has no other value.
lookup_name-le :
    (entries : List (List ℕ × ℕ)) (name : List ℕ) (c : ℕ)
    → All (λ entry. entry.1 ≤ 7) entries
    → lookup_name entries name ≡ some c
    → c ≤ 7
unfolding lookup_name
lookup_name-le [] name c v e = cc
lookup_name-le ((entry, value) ∷ entries) name c v e =
    ground (arith, lookup_name-le entries name c v.1)

colour_from_class-le : (name : List ℕ) (c : ℕ) → colour_from_class name ≡ some c → c ≤ 7
unfolding colour_from_class
colour_from_class-le name c e = lookup_name-le colours name c (omega arith) e

-- The background is a colour.
abbrev pub IsStyle : DisplayState → Type 0
IsStyle style = style.background ≤ 7

set_colour-IsStyle :
    (background : Bool) (found : Option ℕ) (style : DisplayState)
    → ((c : ℕ) → found ≡ some c → c ≤ 7)
    → IsStyle style
    → IsStyle (set_colour background found style)
unfolding set_colour
set_colour-IsStyle background none style h v = v
set_colour-IsStyle background (some c) style h v = let small = h c refl in ground arith

apply_class-IsStyle :
    (name : List ℕ) (style : DisplayState) → IsStyle style → IsStyle (apply_class name style)
unfolding apply_class
apply_class-IsStyle name style v =
    set_colour-IsStyle _ _ style (λ c e. colour_from_class-le _ c e) v

apply_names-IsStyle :
    (fuel : ℕ) (classes : List ℕ) (style : DisplayState)
    → IsStyle style
    → IsStyle (apply_names fuel classes style)
unfolding apply_names
apply_names-IsStyle zero classes style v = v
apply_names-IsStyle (suc fuel) classes style v =
    let (name, rest) = break_at (λ c. c == b' ') (skip_spaces classes) in
    let later =
      apply_names-IsStyle fuel rest (apply_class name style) (apply_class-IsStyle name style v) in
    elim (Bool-cases (length name == 0)) [ inl e ↦ rw e v | inr e ↦ rw e later ]

pub apply_classes-IsStyle :
    (classes : List ℕ) (style : DisplayState)
    → IsStyle style
    → IsStyle (apply_classes classes style)
unfolding apply_classes
apply_classes-IsStyle classes style v = apply_names-IsStyle (length classes) classes style v

-- The style and all saved ones have a colour as background, and the nesting fits the stack.
pub record IsMarkup (m : Markup) : Type 0 where
  pub styled : IsStyle m.style
  pub saved : All IsStyle m.stack
  pub array : length m.stack ≡ stack_depth
  pub nested : m.depth ≤ stack_depth

find_class-IsStyle :
    (cs : List ℕ) (style style' : DisplayState)
    → IsStyle style
    → find_class cs style ≡ some style'
    → IsStyle style'
unfolding find_class apply_attribute
find_class-IsStyle [] style style' v e = ground arith
find_class-IsStyle (c ∷ cs) style style' v e = ground (
  arith,
  find_class-IsStyle cs style style' v,
  apply_classes-IsStyle (break_at (λ c. c == b'"') (drop 7 (c ∷ cs))).0 style v,
)

All-set-IsStyle :
    (stack : List DisplayState) (i : ℕ) (style : DisplayState)
    → All IsStyle stack
    → IsStyle style
    → All IsStyle (set stack i style)
All-set-IsStyle [] i style v h = tt
All-set-IsStyle (s ∷ stack) zero style v h = (h, v.1)
All-set-IsStyle (s ∷ stack) (suc i) style v h = (v.0, All-set-IsStyle stack i style v.1 h)

get_or-IsStyle :
    (stack : List DisplayState) (i : ℕ) → All IsStyle stack → IsStyle (get_or stack i initial)
get_or-IsStyle [] i v = omega arith
get_or-IsStyle (s ∷ stack) zero v = v.0
get_or-IsStyle (s ∷ stack) (suc i) v = get_or-IsStyle stack i v.1

close_element-IsMarkup : (m m' : Markup) → IsMarkup m → close_element m ≡ some m' → IsMarkup m'
unfolding close_element
close_element-IsMarkup m m' v e =
    let restored = get_or-IsStyle m.stack (m.depth - 1) v.saved in
    elim (Bool-cases (m.depth == 0)) [
      | inl bottom ↦ absurd (ground arith)
      | inr inside ↦
          let made : m' ≡ record {
            style = get_or m.stack (m.depth - 1) initial;
            stack = m.stack;
            depth = m.depth - 1;
          } =
            ground arith in
          rw made (record {
            styled = restored;
            saved = v.saved;
            array = v.array;
            nested = omega (arith, v.nested);
          })
    ]

open_element-IsMarkup :
    (rest : List ℕ) (m m' : Markup) → IsMarkup m → open_element rest m ≡ some m' → IsMarkup m'
unfolding open_element
open_element-IsMarkup rest m m' v e = elim (Bool-cases (ltb m.depth stack_depth)) [
  | inr full ↦ absurd (ground arith)
  | inl room ↦
      let opened : (find_class rest m.style >>= λ style.
      some (record { style = style; stack = set m.stack m.depth m.style; depth = m.depth + 1 }))
          ≡ some m' =
        rw room at e in
      let (style, found, made) = >>=-eq-some (find_class rest m.style) _ opened in
      let deeper : m.depth + 1 ≤ stack_depth = ground arith in
      let styled = find_class-IsStyle rest m.style style v.styled found in
      let same : m'
          ≡ record { style = style; stack = set m.stack m.depth m.style; depth = m.depth + 1 } =
        cc in
      rw same (record {
        styled = styled;
        saved = All-set-IsStyle m.stack m.depth m.style v.saved v.styled;
        array = length-set m.stack m.depth m.style ∙ v.array;
        nested = deeper;
      })
]

parse_tag_lem :
    (tag : List ℕ) (m : Markup)
    → (closing : Bool) × (name : List ℕ) × (rest : List ℕ) × (parse_tag tag m ≡ (
        if not (is_styled name)
        then some m
        else if closing
        then close_element m
        else open_element rest m))
unfolding parse_tag
parse_tag_lem tag m =
    let (closing, behind) = is_closing (skip_spaces tag) in
    let (name, rest) = break_at (λ c. c == b' ' || c == b'/' || c == b'>') behind in
    (closing, name, rest, refl)

-- A tag that is accepted leaves a style with colours, and its nesting fits the array of styles.
pub parse_tag-IsMarkup :
    (tag : List ℕ) (m m' : Markup) → IsMarkup m → parse_tag tag m ≡ some m' → IsMarkup m'
parse_tag-IsMarkup tag m m' v e =
    let (closing, name, rest, steps) = parse_tag_lem tag m in
    let taken : (if not (is_styled name)
          then some m
          else if closing
          then close_element m
          else open_element rest m)
        ≡ some m' =
      sym steps ∙ e in
    elim (Bool-cases (is_styled name)) [
      | inr plain ↦ let same : m' ≡ m = ground arith in rw same v
      | inl styled ↦ elim (Bool-cases closing) [
        | inl closes ↦ close_element-IsMarkup m m' v (rw (styled, closes) at taken)
        | inr opens ↦ open_element-IsMarkup rest m m' v (rw (styled, opens) at taken)
      ]
    ]
