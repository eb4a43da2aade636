-- ===== src/Shell/Stellash/Input/Bounds.antt =====
-- The input buffer of shell/stellash.c.
use stellares_os.Common.{
  ℕ, ◌+◌, ◌-◌, ◌<◌, ◌≤◌, ◌≡◌, ◌∙◌, inl, inr, Bool, true, false, ◌&&◌, ◌||◌, List, [], ◌∷◌, arith,
  length, length-set, get_or, get_or-set, set, ltb, leb, ◌==◌, if◌then◌else◌, Bool-cases,
}
use stellares_os.Libc.Str.{strncpy, strlen}
use stellares_os.Libc.Str.Copy.{length-strncpy}
use stellares_os.Libc.Str.Ends.{strlen_bound, strncpy-end}
use stellares_os.Fs.Device.{BlockDevice}
use stellares_os.Shell.Stellash.{Shell, on_screen, draw_titlebar, print_prompt}
use stellares_os.Shell.Stellash.Input.{recall, forget, ctrl_l, read_key, read_keys, readline}

-- A buffer of 512 bytes whose last one is a terminator, and a length below it.
pub record IsLine (input : List ℕ) (ilen : ℕ) : Type 0 where
  pub size : length input ≡ 512
  pub ended : get_or input 511 0 ≡ 0
  pub range : ilen ≤ 511

set-ended :
    (input : List ℕ) (i c : ℕ)
    → length input ≡ 512
    → get_or input 511 0 ≡ 0
    → i < 511
    → get_or (set input i c) 511 0 ≡ 0
set-ended input i c size h l = ground (arith, get_or-set input i 511 c 0 (omega arith))

set_zero-ended :
    (input : List ℕ) (i : ℕ)
    → length input ≡ 512
    → i ≤ 511
    → get_or input 511 0 ≡ 0
    → get_or (set input i 0) 511 0 ≡ 0
set_zero-ended input i size l h = ground (arith, get_or-set input i 511 0 0 (omega arith))

ended_at :
    (input : List ℕ) (i n : ℕ)
    → IsLine input n
    → i ≤ 511
    → (m : ℕ) → m ≤ 511
    → IsLine (set input i 0) m
ended_at input i n h l m k = record {
  size = length-set input i 0 ∙ h.size;
  ended = set_zero-ended input i h.size l h.ended;
  range = k;
}

copied :
    (input text : List ℕ) (n : ℕ)
    → IsLine input n
    → IsLine (strncpy input text 511) (strlen (strncpy input text 511))
copied input text n h =
    let e = strncpy-end input text 511 h.ended in
    record {
      size = length-strncpy input text 511 ∙ h.size;
      ended = e;
      range = strlen_bound (strncpy input text 511) 511 e;
    }

typed :
    (input : List ℕ) (n c : ℕ)
    → IsLine input n
    → n < 511
    → IsLine (set (set input n c) (n + 1) 0) (n + 1)
typed input n c h l =
    let once = set-ended input n c h.size h.ended l in
    record {
      size = length-set (set input n c) (n + 1) 0 ∙ length-set input n c ∙ h.size;
      ended =
          set_zero-ended (set input n c) (n + 1) (length-set input n c ∙ h.size) (omega arith) once;
      range = omega arith;
    }

module _ {b : BlockDevice} where
  -- The input line of a shell.
  abbrev pub IsValid : Shell b → Type 0
  IsValid s = IsLine s.input s.ilen

  recall-IsValid : (i : ℕ) (s : Shell b) → IsValid s → IsValid (recall i s)
  unfolding recall
  recall-IsValid i s h = copied s.input _ s.ilen h

  forget-IsValid : (s : Shell b) → IsValid s → IsValid (forget s)
  unfolding forget
  forget-IsValid s h =
      let r = ended_at s.input 0 s.ilen h (omega arith) 0 (omega arith) in
      record { size = r.size; ended = r.ended; range = strlen_bound (set s.input 0 0) 511 r.ended }

  ctrl_l-IsValid : (s : Shell b) → IsValid s → IsValid (ctrl_l s)
  unfolding ctrl_l print_prompt draw_titlebar on_screen
  ctrl_l-IsValid s h = record { size = h.size; ended = h.ended; range = omega arith }

  pick : (x : Bool) (s t : Shell b) → IsValid s → IsValid t → IsValid (if x then s else t)
  pick true s t h k = h
  pick false s t h k = k

  -- The keys other than those that end a line or delete.
  other_key :
      (c : ℕ) (s : Shell b)
      → (c == 10 || c == 13) ≡ false
      → (c == 8) ≡ false
      → (c == 3) ≡ false
      → IsValid s
      → IsValid (read_key c s).1
  unfolding read_key
  other_key c s n1 n2 n3 h = elim (Bool-cases (c == 12)) [
    | inl e ↦ rw (n1, n2, n3, e, read_key) (ctrl_l-IsValid s h)
    | inr n4 ↦ elim (Bool-cases (c == 0x100)) [
      | inl e ↦
          rw (n1, n2, n3, n4, e, read_key)
            (pick (ltb 0 s.hist_p && ltb 0 s.hist_n) (recall (s.hist_p - 1) s) s
              (recall-IsValid (s.hist_p - 1) s h) h)
      | inr n5 ↦ elim (Bool-cases (c == 0x101)) [
        | inl e ↦
            rw (n1, n2, n3, n4, n5, e, read_key)
              (pick (ltb (s.hist_p + 1) s.hist_n) (recall (s.hist_p + 1) s) (forget s)
                (recall-IsValid (s.hist_p + 1) s h) (forget-IsValid s h))
        | inr n6 ↦ elim (Bool-cases (leb 32 c && ltb c 256 && ltb s.ilen 511)) [
          | inl e ↦
              rw (n1, n2, n3, n4, n5, n6, e, read_key) (typed s.input s.ilen c h (ground arith))
          | inr n7 ↦ rw (n1, n2, n3, n4, n5, n6, n7, read_key) h
        ]
      ]
    ]
  ]

  -- Every key keeps the input in its buffer: 512 bytes that end with a terminator, with a length of at most
  -- 511, whatever the history holds.
  pub read_key-IsValid : (c : ℕ) (s : Shell b) → IsValid s → IsValid (read_key c s).1
  unfolding read_key
  read_key-IsValid c s h = elim (Bool-cases (c == 10 || c == 13)) [
    | inl e ↦ rw (e, read_key) (ended_at s.input s.ilen s.ilen h h.range s.ilen h.range)
    | inr n1 ↦ elim (Bool-cases (c == 8)) [
      | inl e ↦ elim (Bool-cases (ltb 0 s.ilen)) [
        | inl g ↦
            let l = h.range in
            rw (n1, e, g, read_key)
              (ended_at s.input (s.ilen - 1) s.ilen h (omega arith) (s.ilen - 1) (omega arith))
        | inr g ↦ rw (n1, e, g, read_key) h
      ]
      | inr n2 ↦ elim (Bool-cases (c == 3)) [
        | inl e ↦
            rw (n1, n2, e, read_key) (ended_at s.input 0 s.ilen h (omega arith) 0 (omega arith))
        | inr n3 ↦ other_key c s n1 n2 n3 h
      ]
    ]
  ]

  read_keys-IsValid : (cs : List ℕ) (r : Bool × Shell b) → IsValid r.1 → IsValid (read_keys cs r).1
  unfolding read_keys
  read_keys-IsValid [] r h = h
  read_keys-IsValid (c ∷ cs) (true, s) h = read_keys-IsValid cs (true, s) h
  read_keys-IsValid (c ∷ cs) (false, s) h =
      read_keys-IsValid cs (read_key c s) (read_key-IsValid c s h)

  -- A line is read within its buffer: whatever keys come, and whatever the history holds, the input is 512
  -- bytes that end with a terminator, with a length of at most 511.
  pub readline-IsValid : (cs : List ℕ) (s : Shell b) → IsValid s → IsValid (readline cs s).1
  unfolding readline
  readline-IsValid cs s h =
      read_keys-IsValid cs
        (false, record s { ilen = 0; input = set s.input 0 0; hist_p = s.hist_n })
        (ended_at s.input 0 s.ilen h (omega arith) 0 (omega arith))
