-- ===== src/Kernel/Login/Check.antt =====
-- Who gets in by kernel/login.c.
use stellares_os.Common.{
  ℕ, suc, ◌≡◌, refl, ap, take, ◌∙◌, ◌⊎◌, inl, inr, Bool, true, false, ◌&&◌, Option, none, some,
  List, [], ◌∷◌, arith, ◌==◌, str_eq, Bool-cases, Option-cases, ==_iff, sym,
}
use stellares_os.Libc.Number.{atoi}
use stellares_os.Kernel.Login.{
  User, Account, hash_pass, find_user, guest, attempt, login_from, login_screen,
}
use stellares_os.Kernel.Login.Typed.{IsLogin, login_keys, settle, login_from-typed}

-- The account of an entry, as `user_t` holds it.
abbrev pub account : User → Account
account u = record { username = take 31 u.name; home = take 63 u.home }

-- The entry that a name and a password fit, if there is one.
abbrev pub entry_of : List User → List ℕ × List ℕ → Option User
entry_of us (name, password) = find_user us name (hash_pass password)

-- The outcome of three rounds, with the entries that what is typed in them fits: the account, 0 for a login or 1 for
-- the guest, and the keys that are left.
abbrev pub outcome :
    List ℕ
    → List ℕ
    → List ℕ
    → Option User
    → Option User
    → Option User
    → Option (Account × ℕ × List ℕ)
outcome r1 r2 r3 (some u) _ _ = some (account u, 0, r1)
outcome r1 r2 r3 none (some u) _ = some (account u, 0, r2)
outcome r1 r2 r3 none none (some u) = some (account u, 0, r3)
outcome r1 r2 r3 none none none = some (guest, 1, r3)

attempt-some :
    (us : List User) (t : List ℕ × List ℕ) (u : User)
    → entry_of us t ≡ some u
    → attempt us t ≡ some (account u)
unfolding attempt
attempt-some us (name, password) u e = rw (e, attempt) refl

attempt-none : (us : List User) (t : List ℕ × List ℕ) → entry_of us t ≡ none → attempt us t ≡ none
unfolding attempt
attempt-none us (name, password) e = rw (e, attempt) refl

-- One round, by the entry that what is typed in it fits.
round-some :
    (n : ℕ) (us : List User) (k : ℕ) (t : List ℕ × List ℕ) (rest : List ℕ) (u : User)
    → IsLogin t
    → entry_of us t ≡ some u
    → login_from (suc n) us k (login_keys t rest) ≡ some (account u, 0, rest)
round-some n us k t rest u h e =
    login_from-typed n us k t rest h ∙ ap (settle n us k rest) (attempt-some us t u e)

round-none :
    (n : ℕ) (us : List User) (k : ℕ) (t : List ℕ × List ℕ) (rest : List ℕ)
    → IsLogin t
    → entry_of us t ≡ none
    → login_from (suc n) us k (login_keys t rest) ≡ settle n us k rest none
round-none n us k t rest h e =
    login_from-typed n us k t rest h ∙ ap (settle n us k rest) (attempt-none us t e)

-- Whoever types three names and passwords of at most 29 printable bytes, each with its line break, is let in by the
-- first that fits an entry of the table: the entry of that name whose number is the password's hash; after three
-- that fit none, as guest. What is typed behind is not looked at.
pub login_screen-outcome :
    (us : List User) (t1 t2 t3 : List ℕ × List ℕ) (rest : List ℕ)
    → IsLogin t1
    → IsLogin t2
    → IsLogin t3
    → login_screen us (login_keys t1 (login_keys t2 (login_keys t3 rest)))
      ≡ outcome
          (login_keys t2 (login_keys t3 rest))
          (login_keys t3 rest)
          rest
          (entry_of us t1)
          (entry_of us t2)
          (entry_of us t3)
unfolding login_screen
login_screen-outcome us t1 t2 t3 rest h1 h2 h3 =
    let r2 = login_keys t3 rest in
    let r1 = login_keys t2 r2 in
    elim (Option-cases (entry_of us t1)) [
      | inr (u, e) ↦ round-some 2 us 0 t1 r1 u h1 e ∙ rw e refl
      | inl e ↦ elim (Option-cases (entry_of us t2)) [
        | inr (u, f) ↦
            round-none 2 us 0 t1 r1 h1 e ∙ (round-some 1 us 1 t2 r2 u h2 f ∙ rw (e, f) refl)
        | inl f ↦ elim (Option-cases (entry_of us t3)) [
          | inr (u, g) ↦
              round-none 2 us 0 t1 r1 h1 e
              ∙ (round-none 1 us 1 t2 r2 h2 f
                  ∙ (round-some 0 us 2 t3 rest u h3 g ∙ rw (e, f, g) refl))
          | inl g ↦
              round-none 2 us 0 t1 r1 h1 e
              ∙ (round-none 1 us 1 t2 r2 h2 f
                  ∙ (round-none 0 us 2 t3 rest h3 g ∙ rw (e, f, g) refl))
        ]
      ]
    ]

-- An entry of the table.
abbrev pub IsIn : User → List User → Type 0
IsIn u [] = ⊥
IsIn u (x ∷ us) = (u ≡ x) ⊎ IsIn u us

abbrev pub Fits : User → List ℕ → ℕ → Type 0
Fits u name h = (str_eq u.name name ≡ true) × (atoi u.pass ≡ h)

both : (x y : Bool) → (x && y) ≡ true → (x ≡ true) × (y ≡ true)
both x y e = (ground arith, ground arith)

-- `login_screen` accepts exactly the names and hashes of the table: a user that it finds is an entry of
-- that name and that hash, and where it finds none no entry has both.
pub find_user_lem :
    (us : List User) (name : List ℕ) (h : ℕ)
    → ((u : User) → find_user us name h ≡ some u → IsIn u us × Fits u name h)
      × (find_user us name h ≡ none → (u : User) → IsIn u us → ¬ Fits u name h)
unfolding find_user
find_user_lem [] name h = ((λ u e. cc), (λ e u i. absurd i))
find_user_lem (x ∷ us) name h = elim (Bool-cases (str_eq x.name name && atoi x.pass == h)) [
  | inl e ↦
      let (p, q) = both (str_eq x.name name) (atoi x.pass == h) e in
      (
        (λ u f.
            let same : x ≡ u = some_user x u (rw e at f) in
            (inl (sym same), rw (← same) (p, (==_iff (atoi x.pass) h).0 q))),
        (λ f. absurd (none_some x (rw e at f))),
      )
  | inr e ↦
      let later = find_user_lem us name h in
      (
        (λ u f. let (i, w) = later.0 u (rw e at f) in (inr i, w)),
        (λ f u i. absent x e (later.1 (rw e at f)) u i),
      )
]
  where
    some_user : (u w : User) → Path (Option User) (some u) (some w) → u ≡ w
    some_user u w k = cc

    none_some : (u : User) → Path (Option User) (some u) none → ⊥
    none_some u k = cc

    absent :
        (y : User)
        → (str_eq y.name name && atoi y.pass == h) ≡ false
        → ((u : User) → IsIn u us → ¬ Fits u name h)
        → (u : User) → (u ≡ y) ⊎ IsIn u us
        → ¬ Fits u name h
    absent y e k u (inl p) w =
        let q : (atoi y.pass == h) ≡ true =
          (==_iff (atoi y.pass) h).1 (ap (λ z. atoi z.pass) (sym p) ∙ w.1) in
        cc (e, q, ap (λ z. str_eq z.name name) (sym p) ∙ w.0)
    absent y e k u (inr i) w = k u i w
