-- ===== src/Kernel/Installer/Installed.antt =====
-- What kernel/installer.c leaves on a disk that works, and who can log in then.
use stellares_os.Common.{
  ℕ, ◌≤◌, ◌<◌, ◌≡◌, ◌≢◌, refl, ap, sym, ◌∙◌, true, some, List, [], ◌∷◌, ◌++◌, arith, length,
  length-replicate, take, drop, take_all, replicate, codes, subst, str_eq,
}
use stellares_os.Libc.Str.{c_str}
use stellares_os.Fs.Device.{BlockDevice, IsReliable}
use stellares_os.Fs.Disk.{State, format, write_file, read_file}
use stellares_os.Fs.Disk.Table.{clipped}
use stellares_os.Fs.Disk.Table.Format.{take-length}
use stellares_os.Fs.Disk.Files.{IsFileName, IsValid}
use stellares_os.Fs.Disk.Fresh.{format-IsFormatted}
use stellares_os.Fs.Disk.Restart.{clip, write_file-IsWritten}
use stellares_os.Fs.Disk.Keep.{read-write_other, write_file-IsValid}
use stellares_os.Fs.Disk.Pairs.{first_table, write_file-second, read-IsWritten}
use stellares_os.Kernel.Login.{User, attempt, parse_passwd, login_init}
use stellares_os.Kernel.Login.Lines.{parse_passwd-two}
use stellares_os.Kernel.Login.Loaded.{attempt-second, login_init-loads}
use stellares_os.Kernel.Installer.{
  Config, passwd_text, flag_text, readme_text, homepath_text, screen_installing,
}
use stellares_os.Kernel.Installer.Accounts.{
  IsName, root_user, new_user, root_user-IsLine, new_user-IsLine, passwd_text-lines, length-passwd,
  clipped-id, hash-IsHashText, hash_str-eq, codes-ne, readme-IsFileName, homepath-IsFileName,
  passwd-IsFileName, flag-IsFileName,
}

-- The users that the login loads behind an installation.
pub users_of : List ℕ → List ℕ → List User
users_of name password = root_user ∷ new_user name password ∷ []

passwd-ne-homepath : codes "passwd" ≢ codes "homepath"
unfolding str_eq
passwd-ne-homepath = codes-ne (codes "passwd") (codes "homepath") refl

passwd-ne-readme : codes "passwd" ≢ codes "README"
unfolding str_eq
passwd-ne-readme = codes-ne (codes "passwd") (codes "README") refl

module _ (b : BlockDevice) (works : IsReliable b) where
  abbrev put : List ℕ → List ℕ → State b → State b
  put name text s = (write_file b name text (length text) s).1

  -- A file system in use.
  record IsReady (s : State b) : Type 0 where
    valid : IsValid b s
    ready : s.fs_ready ≡ true

  put-IsReady :
      (name text : List ℕ) (s : State b) → IsFileName name → IsReady s → IsReady (put name text s)
  put-IsReady name text s f r =
      let w = write_file-IsValid b works name text (length text) s f r.valid r.ready in
      record { valid = w.0; ready = w.1 }

  formatted-IsReady : (s : State b) → length s.behind_super ≡ 4 → IsReady (format b s).1
  formatted-IsReady s h =
      let f = format-IsFormatted b works s h in record { valid = f.valid; ready = f.ready }

  -- The second file behind a format is read back whole.
  second-read :
      (name text name' text' : List ℕ) (s : State b)
      → length s.behind_super ≡ 4
      → IsFileName name
      → IsFileName name'
      → length text' ≤ 511
      → (buf : List ℕ) × (read_file b name'
            (replicate 512 0)
            511
            (put name' text' (put name text (format b s).1))
          ≡ (some (length text'), buf))
        × (take (length text') buf ≡ text')
  second-read name text name' text' s h f f' short =
      let n = length text' in
      let s0 = (format b s).1 in
      let r0 = formatted-IsReady s h in
      let table =
        first_table b works name text (length text) s0 (format-IsFormatted b works s h).empty
          r0.ready in
      let s1 = put name text s0 in
      let r1 = put-IsReady name text s0 f r0 in
      let e =
        write_file-second b works name' text' n name (clipped (length text)) s1 table r1.ready in
      let w =
        write_file-IsWritten b works name' text' n n s1 f' r1.valid r1.ready
          (e ∙ ap (λ m. some m) (clipped-id n (omega arith))) in
      let r2 = put-IsReady name' text' s1 f' r1 in
      let got =
        read-IsWritten b works name' (replicate 512 0) text' 511 n w.0 (put name' text' s1) w.2
          r2.ready (omega arith) (omega arith)
          (omega (arith, clip-id n short, length-replicate {A = ℕ} 512 0)) in
      (
        take n text' ++ drop n (replicate 512 0),
        got ∙ ap (λ m. (some m, take m text' ++ drop m (replicate 512 0))) (clip-id n short),
        taken n text' (drop n (replicate 512 0)) refl,
      )
    where
      clip-id : (n : ℕ) → n ≤ 511 → clip 511 n ≡ n
      clip-id n l = ground arith

      taken : (n : ℕ) (t r : List ℕ) → length t ≡ n → take n (take n t ++ r) ≡ t
      taken n t r e = rw (take_all t n (omega arith)) (take-length t r n e)

  -- After an installation on a disk that works, the login loads two users, and the new user's name and password
  -- give the account of that name with a home below `/home`, unless the name is `root`.
  pub installing-login :
      (cfg : Config) (s : State b)
      → length s.behind_super ≡ 4
      → IsName (c_str cfg.username)
      → codes "root" ≢ c_str cfg.username
      → let name = c_str cfg.username in
        let t = screen_installing b cfg s in
        let users = users_of name (c_str cfg.password) in
        (login_init b t ≡ (some users, t))
        × (attempt users (name, c_str cfg.password)
            ≡ some (record { username = name; home = codes "/home/" ++ name }))
  unfolding screen_installing users_of
  installing-login cfg s h n ne =
      let name = c_str cfg.username in
      let password = c_str cfg.password in
      let text = passwd_text cfg in
      let lines = passwd_text-lines cfg in
      let short : length text ≤ 511 =
        subst (λ t. length t ≤ 511) (sym lines) (length-passwd name password n) in
      let present : 0 < length text = subst (λ t. 0 < length t) (sym lines) (omega arith) in
      let s1 = put (codes "installed") (flag_text cfg) (format b s).1 in
      let r1 =
        put-IsReady (codes "installed") (flag_text cfg) (format b s).1 flag-IsFileName
          (formatted-IsReady s h) in
      let s2 = put (codes "passwd") text s1 in
      let r2 = put-IsReady (codes "passwd") text s1 passwd-IsFileName r1 in
      let s3 = put (codes "README") (readme_text cfg) s2 in
      let r3 = put-IsReady (codes "README") (readme_text cfg) s2 readme-IsFileName r2 in
      let s4 = put (codes "homepath") (homepath_text cfg) s3 in
      let r4 = put-IsReady (codes "homepath") (homepath_text cfg) s3 homepath-IsFileName r3 in
      let q =
        second-read (codes "installed") (flag_text cfg) (codes "passwd") text s h flag-IsFileName
          passwd-IsFileName short in
      let kept =
        read-write_other b works (codes "passwd") (codes "homepath") (homepath_text cfg)
          (replicate 512 0) (length (homepath_text cfg)) 511 s3 passwd-ne-homepath
          homepath-IsFileName r3.valid
        ∙ read-write_other b works (codes "passwd") (codes "README") (readme_text cfg)
            (replicate 512 0) (length (readme_text cfg)) 511 s2 passwd-ne-readme readme-IsFileName
            r2.valid in
      let u = hash-IsHashText password in
      (
        login_init-loads b s4 (length text) q.0 text r4.ready (kept ∙ q.1) present q.2
            ∙ ap (λ us. (some us, s4))
                (ap parse_passwd lines
                  ∙ parse_passwd-two root_user (new_user name password) root_user-IsLine
                      (new_user-IsLine name password n)),
        attempt-second root_user (new_user name password) password ne
            (u.value ∙ hash_str-eq password) (omega (arith, n.short)) (omega (arith, n.short)),
      )
