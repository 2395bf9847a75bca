-- ===== src/Teletekst/Links.antt =====
-- firmware/src/teletekst.c: the next subpage and the neighbouring pages of a page.
use p2000t_teletekst_cartrid.CustomEndpoint.{is_digit, decimal}
use p2000t_teletekst_cartrid.P2wp.Frame.{u8, u16}
use p2000t_teletekst_cartrid.Prelude.{
  ℕ, ◌+◌, ◌-◌, ◌*◌, ◌≤◌, ◌<◌, Bool, true, false, not, ◌||◌, List, [], ◌∷◌, Option, none, some, ◌≡◌,
  ◌⊎◌, inl, inr, refl, sym, ap, ◌∙◌, ◌++◌, ◌/◌, ◌%◌, All, All-append, append-nil, Bool-cases, arith,
  ltb, ◌==◌, if◌then◌else◌,
}
use p2000t_teletekst_cartrid.Teletekst.Json.{
  is_plain, string_codepoints-plain, find_json_string, string_codepoints,
}

-- "nextSubPage"
abbrev pub next_subpage_key : List ℕ
next_subpage_key = b'n' ∷ b'e' ∷ b'x' ∷ b't' ∷ b'S' ∷ b'u' ∷ b'b' ∷ b'P' ∷ b'a' ∷ b'g' ∷ b'e' ∷ []

-- The variables of the loop in `parse_next_subpage`.
pub record Subpage : Type 0 where
  pub page : ℕ
  pub subpage : ℕ
  pub separator : Bool
  pub have_page : Bool
  pub have_subpage : Bool

-- What a digit makes of them.
pub add_digit : Subpage → ℕ → Subpage
add_digit s c =
    if s.separator
    then record s { subpage = s.subpage * 10 + (c - b'0'); have_subpage = true }
    else record s { page = s.page * 10 + (c - b'0'); have_page = true }

-- The loop, on the code points that are left and whether the string is closed behind them.
pub read_subpage : List ℕ → Bool → Subpage → Option Subpage
read_subpage [] closed s = if closed then some s else none
read_subpage (c ∷ cs) closed s =
    let later = read_subpage cs closed (record s { separator = true }) in
    let later' = read_subpage cs closed (add_digit s c) in
    if c == b'-'
    then if s.separator || not s.have_page then none else later
    else if not (is_digit c)
    then none
    else if ltb 999 (add_digit s c).page || ltb 255 (add_digit s c).subpage
    then none
    else later'

-- The result behind the loop: the next subpage, or `none` for `false`.
pub finish_subpage : ℕ → Subpage → Option ℕ
finish_subpage requested s =
    if not s.have_page
    then if s.separator then none else some 0
    else if not s.separator
    then if s.page == 0 || s.page == requested then some 0 else none
    else if not s.have_subpage || not (s.page == requested) || s.subpage == 0
    then none
    else some (u8 s.subpage)

unfoldable pub parse_next_subpage : List ℕ → ℕ → Option ℕ
unfolding read_subpage add_digit finish_subpage
parse_next_subpage json requested = elim (find_json_string next_subpage_key json) [
  | none ↦ none
  | some value ↦
      let (cs, closed) = string_codepoints value in
      elim (read_subpage cs closed (record {
        page = 0;
        subpage = 0;
        separator = false;
        have_page = false;
        have_subpage = false;
      })) [ none ↦ none | some s ↦ finish_subpage requested s ]
]

-- The loop of `parse_page_link`: the number and the count of its digits.
pub read_link : List ℕ → Bool → ℕ → ℕ → Option (ℕ × ℕ)
read_link [] closed parsed digits = if closed then some (parsed, digits) else none
read_link (c ∷ cs) closed parsed digits =
    let later = read_link cs closed (parsed * 10 + (c - b'0')) (digits + 1) in
    if not (is_digit c) || digits == 3 then none else later

-- The result behind the loop: whether it is true, and the page.
pub finish_link : ℕ → ℕ → Bool × ℕ
finish_link parsed digits =
    if digits == 0
    then (true, 0)
    else if not (digits == 3) || ltb parsed 100 || ltb 899 parsed
    then (false, 0)
    else (true, u16 parsed)

unfoldable pub parse_page_link : List ℕ → List ℕ → Bool × ℕ
unfolding read_link finish_link
parse_page_link key json = elim (find_json_string key json) [
  | none ↦ (true, 0)
  | some value ↦
      let (cs, closed) = string_codepoints value in
      elim (read_link cs closed 0 0) [ none ↦ (false, 0) | some r ↦ finish_link r.0 r.1 ]
]

-- A neighbouring page is 0 for none, or a page from 100 to 899.
pub parse_page_link-page :
    (key json : List ℕ)
    → ((parse_page_link key json).1 ≡ 0)
      ⊎ ((100 ≤ (parse_page_link key json).1) × ((parse_page_link key json).1 ≤ 899))
unfolding parse_page_link finish_link
parse_page_link-page key json = grind arith

-- A digit that keeps the numbers in range is taken in.
read_digit :
    (d : ℕ) (cs : List ℕ) (closed : Bool) (s : Subpage)
    → d < 10
    → (add_digit s (b'0' + d)).page ≤ 999
    → (add_digit s (b'0' + d)).subpage ≤ 255
    → read_subpage ((b'0' + d) ∷ cs) closed s ≡ read_subpage cs closed (add_digit s (b'0' + d))
unfolding read_subpage
read_digit d cs closed s h p q = ground arith

-- Digits of the page behind those of `n`, in front of the separator.
abbrev with_page : ℕ → Bool → Subpage
with_page n read = record {
  page = n;
  subpage = 0;
  separator = false;
  have_page = read;
  have_subpage = false;
}

abbrev with_subpage : ℕ → ℕ → Bool → Subpage
with_subpage page n read = record {
  page = page;
  subpage = n;
  separator = true;
  have_page = true;
  have_subpage = read;
}

read_page_digit :
    (n d : ℕ) (read : Bool) (cs : List ℕ) (closed : Bool)
    → d < 10
    → n * 10 + d ≤ 999
    → read_subpage ((b'0' + d) ∷ cs) closed (with_page n read)
      ≡ read_subpage cs closed (with_page (n * 10 + d) true)
unfolding add_digit
read_page_digit n d read cs closed h k =
    read_digit d cs closed (with_page n read) h (omega arith) (omega arith)
    ∙ ap (λ p. read_subpage cs closed (with_page p true)) (omega arith)

read_subpage_digit :
    (page n d : ℕ) (read : Bool) (cs : List ℕ) (closed : Bool)
    → d < 10
    → page ≤ 999
    → n * 10 + d ≤ 255
    → read_subpage ((b'0' + d) ∷ cs) closed (with_subpage page n read)
      ≡ read_subpage cs closed (with_subpage page (n * 10 + d) true)
unfolding add_digit
read_subpage_digit page n d read cs closed h j k =
    read_digit d cs closed (with_subpage page n read) h (omega arith) (omega arith)
    ∙ ap (λ p. read_subpage cs closed (with_subpage page p true)) (omega arith)

read_page-decimal :
    (n : ℕ) (cs : List ℕ) (closed : Bool)
    → n < 1000
    → read_subpage (decimal 3 n ++ cs) closed (with_page 0 false)
      ≡ read_subpage cs closed (with_page n true)
unfolding decimal
read_page-decimal n cs closed h = ground (
  arith,
  read_page_digit 0 n false cs closed,
  read_page_digit 0 (n / 10) false ((b'0' + n % 10) ∷ cs) closed,
  read_page_digit (n / 10) (n % 10) true cs closed,
  read_page_digit 0 (n / 10 / 10) false ((b'0' + n / 10 % 10) ∷ (b'0' + n % 10) ∷ cs) closed,
  read_page_digit (n / 10 / 10) (n / 10 % 10) true ((b'0' + n % 10) ∷ cs) closed,
)

read_subpage-decimal :
    (page n : ℕ) (cs : List ℕ) (closed : Bool)
    → page ≤ 999
    → n < 256
    → read_subpage (decimal 3 n ++ cs) closed (with_subpage page 0 false)
      ≡ read_subpage cs closed (with_subpage page n true)
unfolding decimal
read_subpage-decimal page n cs closed j h = ground (
  arith,
  read_subpage_digit page 0 n false cs closed,
  read_subpage_digit page 0 (n / 10) false ((b'0' + n % 10) ∷ cs) closed,
  read_subpage_digit page (n / 10) (n % 10) true cs closed,
  read_subpage_digit page 0 (n / 10 / 10) false ((b'0' + n / 10 % 10) ∷ (b'0' + n % 10) ∷ cs)
      closed,
  read_subpage_digit page (n / 10 / 10) (n / 10 % 10) true ((b'0' + n % 10) ∷ cs) closed,
)

decimal-plain : (n : ℕ) → n < 1000 → All (λ c. is_plain c ≡ true) (decimal 3 n)
unfolding decimal
decimal-plain n h = elim (Bool-cases (ltb n 10)) [
  | inl one ↦ rw one (ground arith, tt)
  | inr more ↦ elim (Bool-cases (ltb (n / 10) 10)) [
    | inl two ↦ rw (more, two) (ground arith, (ground arith, tt))
    | inr three ↦
        let last : ltb (n / 10 / 10) 10 ≡ true = ground arith in
        rw (more, three, last) (ground arith, (ground arith, (ground arith, tt)))
  ]
]

-- The text of a page and its next subpage.
abbrev pub subpage_text : ℕ → ℕ → List ℕ
subpage_text page n = decimal 3 page ++ (b'-' ∷ decimal 3 n)

subpage_text-plain :
    (page n : ℕ) → page < 1000 → n < 256 → All (λ c. is_plain c ≡ true) (subpage_text page n)
subpage_text-plain page n h k =
    All-append (λ c. is_plain c ≡ true) (decimal 3 page) (b'-' ∷ decimal 3 n) (decimal-plain page h)
      (refl, decimal-plain n (omega arith))

read_subpage-text :
    (page n : ℕ)
    → page < 1000
    → n < 256
    → read_subpage (subpage_text page n) true (with_page 0 false) ≡ some (with_subpage page n true)
unfolding read_subpage
read_subpage-text page n h k =
    read_page-decimal page (b'-' ∷ decimal 3 n) true h
    ∙ ap (λ t. read_subpage t true (with_subpage page 0 false)) (sym (append-nil (decimal 3 n)))
    ∙ read_subpage-decimal page n [] true (omega arith) k

-- Where the text behind the opening quote of "nextSubPage" is the requested page, a dash and a
-- subpage from 1 to 255, that subpage is the result.
pub parse_next_subpage-text :
    (json rest : List ℕ) (page n : ℕ)
    → 100 ≤ page
    → page ≤ 899
    → 1 ≤ n
    → n ≤ 255
    → find_json_string next_subpage_key json ≡ some (subpage_text page n ++ (b'"' ∷ rest))
    → parse_next_subpage json page ≡ some n
unfolding parse_next_subpage finish_subpage
parse_next_subpage-text json rest page n low high first last found = ground (
  arith,
  found,
  string_codepoints-plain (subpage_text page n) rest
      (subpage_text-plain page n (omega arith) (omega arith)),
  read_subpage-text page n (omega arith) (omega arith),
)
