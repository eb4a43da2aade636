-- ===== src/Kernel/Login/Tests.antt =====
-- A table with one user, whose password is `ab`.
use stellares_os.Common.{ℕ, arith, ◌≡◌, List, [], ◌∷◌, none, some}
use stellares_os.Kernel.Login.{User, find_user, login_screen}
use stellares_os.Kernel.Login.Typed.{IsLogin, login_keys}
use stellares_os.Kernel.Login.Check.{
  outcome, entry_of, login_screen-outcome, IsIn, Fits, find_user_lem,
}

abbrev user : User
user = record { name = 117 ∷ []; pass = 53 ∷ []; home = 47 ∷ [] }

abbrev typed : List ℕ × List ℕ
typed = (117 ∷ [], 97 ∷ 98 ∷ [])

typed-IsLogin : IsLogin typed
typed-IsLogin = record {
  name_chars = omega arith;
  name_short = omega arith;
  password_chars = omega arith;
  password_short = omega arith;
}

login_screen-outcome_example :
    login_screen (user ∷ []) (login_keys typed (login_keys typed (login_keys typed [])))
    ≡ outcome
        (login_keys typed (login_keys typed []))
        (login_keys typed [])
        []
        (entry_of (user ∷ []) typed)
        (entry_of (user ∷ []) typed)
        (entry_of (user ∷ []) typed)
login_screen-outcome_example =
    login_screen-outcome (user ∷ []) typed typed typed [] typed-IsLogin typed-IsLogin typed-IsLogin

find_user_lem_example :
    ((u : User)
      → find_user (user ∷ []) (117 ∷ []) 5 ≡ some u
      → IsIn u (user ∷ []) × Fits u (117 ∷ []) 5)
    × (find_user (user ∷ []) (117 ∷ []) 5 ≡ none
        → (u : User) → IsIn u (user ∷ [])
        → ¬ Fits u (117 ∷ []) 5)
find_user_lem_example = find_user_lem (user ∷ []) (117 ∷ []) 5
