-- ===== src/Kernel/Login/Lines.antt =====
-- A line of the users' file of kernel/login.c that has its three fields.
use stellares_os.Common.{
  ℕ, zero, suc, ◌+◌, ◌-◌, ◌≤◌, ◌≡◌, ◌≢◌, refl, ap, none, some, List, [], ◌∷◌, ◌++◌, arith, length,
  length-append, All, take_all,
}
use stellares_os.Libc.Token.{is_delim}
use stellares_os.Libc.Token.Laws.{IsPlain, IsPart}
use stellares_os.Libc.Token.Fields.{strtok-field, strtok-last}
use stellares_os.Kernel.Login.{
  User, line_of, after_line, with_home, with_pass, with_name, parse_line, parse_lines, parse_passwd,
}
use stellares_os.Libc.Str.{c_str}

-- A byte that is none of the file's marks.
abbrev pub IsInner : ℕ → Type 0
IsInner c = (c ≢ 0) × (c ≢ 10) × (c ≢ 58)

-- A field of a line.
abbrev pub IsInnerText : List ℕ → Type 0
IsInnerText s = (s ≢ []) × All IsInner s

abbrev pub line_text : List ℕ → List ℕ → List ℕ → List ℕ
line_text name pass home = name ++ (58 ∷ (pass ++ (58 ∷ home)))

plain : (s : List ℕ) → All IsInner s → All (IsPlain (58 ∷ [])) s
unfolding is_delim
plain [] h = tt
plain (c ∷ s) h = (ground (arith, h.0), plain s h.1)

part : (s : List ℕ) → IsInnerText s → IsPart (58 ∷ []) s
part s h = (h.0, plain s h.1)

-- The line of a user whose fields have room is read as that user.
pub parse_line-text :
    (name pass home : List ℕ)
    → IsInnerText name
    → IsInnerText pass
    → IsInnerText home
    → length name ≤ 31
    → length pass ≤ 31
    → length home ≤ 63
    → parse_line (line_text name pass home)
      ≡ some (record { name = name; pass = pass; home = home })
unfolding parse_line with_name with_pass with_home is_delim
parse_line-text name pass home n p h ln lp lh = rw (
  (strtok-field (58 ∷ []) name (pass ++ (58 ∷ home)) 58 none refl (part name n)).0,
  (strtok-field (58 ∷ []) pass home 58 none refl (part pass p)).1,
  strtok-last (58 ∷ []) home (part home h),
  take_all name 31 ln,
  take_all pass 31 lp,
  take_all home 63 lh,
)

line_lem :
    (room : ℕ) (l s : List ℕ)
    → All (λ c. c ≢ 10) l
    → length l ≤ room
    → (line_of room (l ++ (10 ∷ s)) ≡ l) × (after_line room (l ++ (10 ∷ s)) ≡ s)
unfolding line_of after_line
line_lem zero [] s h m = (refl, refl)
line_lem zero (c ∷ l) s h m = absurd (omega arith)
line_lem (suc room) [] s h m = (refl, refl)
line_lem (suc room) (c ∷ l) s h m = ground (arith, h.0, line_lem room l s h.1)

-- A line that makes a user, and the lines behind it.
pub parse_lines-line :
    (f room : ℕ) (l s : List ℕ) (u : User)
    → l ≢ []
    → All (λ c. c ≢ 10) l
    → length l ≤ 127
    → parse_line l ≡ some u
    → parse_lines (suc f) (suc room) (l ++ (10 ∷ s)) ≡ u ∷ parse_lines f room s
unfolding parse_lines
parse_lines-line f room [] s u ne h m e = absurd (ne refl)
parse_lines-line f room (c ∷ l) s u ne h m e =
    let q = line_lem 127 (c ∷ l) s h m in rw (q.0, e, q.1, parse_lines)

pub parse_lines-nil : (f room : ℕ) → parse_lines f room [] ≡ []
unfolding parse_lines
parse_lines-nil zero room = refl
parse_lines-nil (suc f) room = refl

-- The fields of a line that makes a user, and the user.
pub record IsLine (u : User) : Type 0 where
  pub name_ok : IsInnerText u.name
  pub pass_ok : IsInnerText u.pass
  pub home_ok : IsInnerText u.home
  pub name_fits : length u.name ≤ 31
  pub pass_fits : length u.pass ≤ 31
  pub home_fits : length u.home ≤ 63

abbrev pub text_of : User → List ℕ
text_of u = line_text u.name u.pass u.home

pub All-append {ℓ} : (P : ℕ → Type ℓ) (s t : List ℕ) → All P s → All P t → All P (s ++ t)
All-append P [] t h k = k
All-append P (c ∷ s) t h k = (h.0, All-append P s t h.1 k)

no_break : (s : List ℕ) → All IsInner s → All (λ c. c ≢ 10) s
no_break [] h = tt
no_break (c ∷ s) h = (h.0.1, no_break s h.1)

no_zero : (s : List ℕ) → All IsInner s → All (λ c. c ≢ 0) s
no_zero [] h = tt
no_zero (c ∷ s) h = (h.0.0, no_zero s h.1)

text_of-All :
    (P : ℕ → Type 0) (u : User)
    → P 58
    → All P u.name
    → All P u.pass
    → All P u.home
    → All P (text_of u)
text_of-All P u c n p h = All-append P u.name _ n (c, All-append P u.pass _ p (c, h))

pub length-text_of :
    (u : User) → length (text_of u) ≡ length u.name + length u.pass + length u.home + 2
length-text_of u = omega (
  arith,
  length-append u.name (58 ∷ (u.pass ++ (58 ∷ u.home))),
  length-append u.pass (58 ∷ u.home),
)

ten-ne : Path ℕ 58 10 → ⊥
ten-ne e = omega arith

zero-ne : Path ℕ 58 0 → ⊥
zero-ne e = omega arith

break-ne : Path ℕ 10 0 → ⊥
break-ne e = omega arith

line-ne-nil : (u : User) → text_of u ≢ []
line-ne-nil u e = omega (arith, length-text_of u, ap length e)

c_str-All : (s : List ℕ) → All (λ c. c ≢ 0) s → c_str s ≡ s
unfolding c_str
c_str-All [] h = refl
c_str-All (c ∷ s) h = ground (arith, h.0, c_str-All s h.1)

-- A line of the file, with its line break, in front of the others.
abbrev pub in_front : User → List ℕ → List ℕ
in_front u s = text_of u ++ (10 ∷ s)

parse_lines-user :
    (f room : ℕ) (u : User) (s : List ℕ)
    → IsLine u
    → parse_lines (suc f) (suc room) (in_front u s) ≡ u ∷ parse_lines f room s
parse_lines-user f room u s v =
    parse_lines-line f room (text_of u) s u (line-ne-nil u)
      (text_of-All (λ c. c ≢ 10) u ten-ne (no_break u.name v.name_ok.1)
        (no_break u.pass v.pass_ok.1) (no_break u.home v.home_ok.1))
      (omega (arith, length-text_of u, v.name_fits, v.pass_fits, v.home_fits))
      (parse_line-text u.name u.pass u.home v.name_ok v.pass_ok v.home_ok v.name_fits v.pass_fits
        v.home_fits)

in_front-All :
    (u : User) (s : List ℕ) → IsLine u → All (λ c. c ≢ 0) s → All (λ c. c ≢ 0) (in_front u s)
in_front-All u s v h =
    All-append (λ c. c ≢ 0) (text_of u) (10 ∷ s)
      (text_of-All (λ c. c ≢ 0) u zero-ne (no_zero u.name v.name_ok.1) (no_zero u.pass v.pass_ok.1)
        (no_zero u.home v.home_ok.1))
      (break-ne, h)

-- The lines of two users are read as these two.
pub parse_passwd-two :
    (u w : User) → IsLine u → IsLine w → parse_passwd (in_front u (in_front w [])) ≡ u ∷ w ∷ []
unfolding parse_passwd
parse_passwd-two u w v v' =
    let text = in_front u (in_front w []) in
    let z = in_front-All u (in_front w []) v (in_front-All w [] v' tt) in
    let n = length text - 1 in
    let e : suc (length text) ≡ suc (suc n) =
      omega (arith, length-append (text_of u) (10 ∷ in_front w [])) in
    rw
      (
        c_str-All text z,
        e,
        parse_lines-user (suc n) 7 u (in_front w []) v,
        parse_lines-user n 6 w [] v',
        parse_lines-nil n 6,
      )
      refl
