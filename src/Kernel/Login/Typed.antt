-- ===== src/Kernel/Login/Typed.antt =====
-- What is typed into the login of kernel/login.c, and what one round of it makes of that.
use mathlib.Core.List.{append_assoc, append-nil}
use stellares_os.Common.{
  ℕ, suc, refl, inl, inr, Option-cases, ◌+◌, ◌≤◌, ◌<◌, ◌≡◌, ap, ◌∙◌, some, List, [], ◌∷◌, ◌++◌,
  arith, length, length-append, All, Option, none, leb, if◌then◌else◌,
}
use stellares_os.Kernel.Login.{User, Account, guest, attempt, read_input, login_from, login_screen}

-- A byte that a field takes.
abbrev pub IsTyped : ℕ → Type 0
IsTyped c = (32 ≤ c) × (c < 127)

-- A name and a password that fit the fields of the login.
pub record IsLogin (t : List ℕ × List ℕ) : Type 0 where
  pub name_chars : All IsTyped t.0
  pub name_short : length t.0 ≤ 29
  pub password_chars : All IsTyped t.1
  pub password_short : length t.1 ≤ 29

-- Both, each with its line break.
abbrev pub login_keys : List ℕ × List ℕ → List ℕ → List ℕ
login_keys (name, password) rest = name ++ (10 ∷ (password ++ (10 ∷ rest)))

read_input-text :
    (buf text rest : List ℕ)
    → All IsTyped text
    → length buf + length text ≤ 29
    → read_input buf 30 (text ++ (10 ∷ rest)) ≡ some (buf ++ text, rest)
unfolding read_input
read_input-text buf [] rest h l = rw (append-nil buf) refl
read_input-text buf (c ∷ text) rest h l =
    let one = length-append buf (c ∷ []) in
    let step : read_input buf 30 (c ∷ (text ++ (10 ∷ rest)))
        ≡ read_input (buf ++ (c ∷ [])) 30 (text ++ (10 ∷ rest)) =
      ground (arith, h.0) in
    step
    ∙ (read_input-text (buf ++ (c ∷ [])) text rest h.1 (omega arith)
        ∙ ap (λ b. some (b, rest)) (append_assoc buf (c ∷ []) text))

-- What follows the look into the table.
abbrev pub settle : ℕ → List User → ℕ → List ℕ → Option Account → Option (Account × ℕ × List ℕ)
settle n us attempts rest (some a) = some (a, 0, rest)
settle n us attempts rest none =
    let again = login_from n us (attempts + 1) rest in
    if leb 3 (attempts + 1) then some (guest, 1, rest) else again

pub login_from-typed :
    (n : ℕ) (us : List User) (attempts : ℕ) (t : List ℕ × List ℕ) (rest : List ℕ)
    → IsLogin t
    → login_from (suc n) us attempts (login_keys t rest) ≡ settle n us attempts rest (attempt us t)
unfolding login_from
login_from-typed n us attempts (name, password) rest h =
    let first =
      read_input-text [] name (password ++ (10 ∷ rest)) h.name_chars
        (omega (arith, h.name_short)) in
    let second =
      read_input-text [] password rest h.password_chars (omega (arith, h.password_short)) in
    elim (Option-cases (attempt us (name, password))) [
      | inl e ↦ rw (first, login_from, second, e) refl
      | inr (a, e) ↦ rw (first, login_from, second, e) refl
    ]

-- A name and a password that the table accepts, typed first, are the login.
pub login_screen-typed :
    (us : List User) (t : List ℕ × List ℕ) (rest : List ℕ) (a : Account)
    → IsLogin t
    → attempt us t ≡ some a
    → login_screen us (login_keys t rest) ≡ some (a, 0, rest)
unfolding login_screen
login_screen-typed us t rest a h e = login_from-typed 2 us 0 t rest h ∙ ap (settle 2 us 0 rest) e
