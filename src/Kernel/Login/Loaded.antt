-- ===== src/Kernel/Login/Loaded.antt =====
-- The users that kernel/login.c has loaded, and the one who logs in.
use stellares_os.Common.{
  ℕ, ◌≤◌, ◌<◌, ◌≡◌, ◌≢◌, refl, true, some, List, [], ◌∷◌, arith, length, take, take_all, replicate,
  codes, lt→ltb, ==_iff, str_eq_ne, str_eq_refl,
}
use stellares_os.Libc.Number.{atoi}
use stellares_os.Fs.Device.{BlockDevice}
use stellares_os.Fs.Disk.{State, read_file}
use stellares_os.Kernel.Login.{User, hash_pass, find_user, attempt, parse_passwd, login_init}

find_user-second :
    (u w : User) (h : ℕ)
    → u.name ≢ w.name
    → atoi w.pass ≡ h
    → find_user (u ∷ w ∷ []) w.name h ≡ some w
unfolding find_user
find_user-second u w h ne e =
    ground (arith, str_eq_ne u.name w.name ne, str_eq_refl w.name, ==_iff (atoi w.pass) h)

-- The second of two users, under a name that the first has not.
pub attempt-second :
    (u w : User) (password : List ℕ)
    → u.name ≢ w.name
    → atoi w.pass ≡ hash_pass password
    → length w.name ≤ 31
    → length w.home ≤ 63
    → attempt (u ∷ w ∷ []) (w.name, password) ≡ some (record { username = w.name; home = w.home })
unfolding attempt
attempt-second u w password ne h n m =
    rw
      (
        find_user-second u w (hash_pass password) ne h,
        attempt,
        take_all w.name 31 n,
        take_all w.home 63 m,
      )
      refl

module _ (b : BlockDevice) where
  -- A file of users that is there is parsed, and nothing is written.
  pub login_init-loads :
      (s : State b) (n : ℕ) (buf text : List ℕ)
      → s.fs_ready ≡ true
      → read_file b (codes "passwd") (replicate 512 0) 511 s ≡ (some n, buf)
      → 0 < n
      → take n buf ≡ text
      → login_init b s ≡ (some (parse_passwd text), s)
  unfolding login_init
  login_init-loads s n buf text on e p same = simp (on, e, lt→ltb 0 n p, same)
