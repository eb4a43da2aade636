-- ===== src/Kernel/Syscall/Dispatch.antt =====
-- `syscall_handler` of kernel/syscall.c, and `sys_uname`.
pub mod Keep
use stellares_os.Common.{
  ℕ, zero, suc, ◌+◌, ◌/◌, ◌%◌, Bool, true, false, not, ltb, ◌&&◌, ◌||◌, Option, none, some, List,
  [], ◌∷◌, ◌++◌, ◌==◌, if◌then◌else◌, length, take, drop, codes,
}
use stellares_os.Libc.Str.{c_str, strcpy, memcpy}
use stellares_os.Fs.Device.{BlockDevice}
use stellares_os.Fs.Ram.{node_at, resolve}
use stellares_os.Kernel.Syscall.{
  fd_at, fd_alloc, dir_length, avail, least, open_file, errno, System, sys_exit, sys_read,
  read_keys, sys_write, sys_open, sys_close, sys_getpid, sys_brk,
}

-- `strcpy` to the field of 65 bytes that starts at `at`.
pub put_field : ℕ → List ℕ → List ℕ → List ℕ
put_field at text buf = take at buf ++ strcpy (drop at buf) text

-- The structure of five fields in the program's memory, `none` for the null pointer.
pub sys_uname : Option (List ℕ) → ℕ × Option (List ℕ)
unfolding put_field
sys_uname none = (errno 14, none)
sys_uname (some u) =
    let u1 = put_field 0 (codes "StellaresOS") u in
    let u2 = put_field 65 (codes "stellares") u1 in
    let u3 = put_field 130 (codes "0.1.0") u2 in
    let u4 = put_field 195 (codes "#1 StellaresOS i386") u3 in
    (0, some (put_field 260 (codes "i686") u4))

-- The registers of a call. `bytes` is the array that the pointer among them points to, in `ebx` or `ecx`: it lies in
-- the program's memory, apart from the kernel's. `keys` are the keys that come while the call waits, and `stack` is
-- what the stack holds where `ramfs_resolve` sets no end.
pub record Request : Type 0 where
  pub eax : ℕ
  pub ebx : ℕ
  pub ecx : ℕ
  pub edx : ℕ
  pub bytes : Option (List ℕ)
  pub keys : List ℕ
  pub stack : List ℕ

-- What becomes of a call: it returns a value, with the bytes at its pointer and the system; it waits for a key; or
-- it writes over memory that is none of its arrays.
module _ (b : BlockDevice) where
  pub data Outcome : Type 0 where
    returns : ℕ → Option (List ℕ) → System b → Outcome
    waits spills : Outcome

module _ {b : BlockDevice} where
  -- What a call returns, the bytes at its pointer, and the system; `none` while it waits for a key.
  pub read_stdin : Option (List ℕ) → ℕ → List ℕ → System b → Option (ℕ × Option (List ℕ) × System b)
  read_stdin none count keys s = some (0, none, s)
  read_stdin (some buf) count keys s =
      if count == 0 then some (0, some buf, s) else elim (read_keys count keys) [
        | none ↦ none
        | some got ↦ some (length got, some (memcpy buf got (length got)), s)
      ]

  -- The switch over the numbers of the calls, for a call that writes within its arrays.
  pub answer : Request → System b → Option (ℕ × Option (List ℕ) × System b)
  unfolding sys_uname read_stdin
  answer r s =
      if r.eax == 1 || r.eax == 252
      then (let (v, s') = sys_exit b s in some (v, r.bytes, s'))
      else if r.eax == 3
      then (if r.ebx == 0
          then read_stdin r.bytes r.edx r.keys s
          else (let (v, out, fds') = sys_read r.ebx r.bytes r.edx s.fds s.nodes in
              some (v, out, record s { fds = fds' })))
      else if r.eax == 4
      then (let (v, s') = sys_write b r.ebx r.bytes r.edx s in some (v, r.bytes, s'))
      else if r.eax == 5
      then (let path : Option (List ℕ) = elim r.bytes [
        | none ↦ none
        | some buf ↦ some (c_str buf)
      ] in
          let (v, fds', nodes') = sys_open r.stack path r.ecx s.fds s.nodes in
          some (v, r.bytes, record s { fds = fds'; nodes = nodes' }))
      else if r.eax == 6
      then some (0, r.bytes, record s { fds = sys_close r.ebx s.fds })
      else if r.eax == 20
      then some (sys_getpid b s, r.bytes, s)
      else if r.eax == 45
      then (let (v, top) = sys_brk r.ebx s.heap_end in
          some (v, r.bytes, record s { heap_end = top }))
      else if r.eax == 122
      then (let (v, out) = sys_uname r.bytes in some (v, out, s))
      else some (errno 38, r.bytes, s)

  -- The calls that would write over the end of an array: more keys or bytes than the program's array holds, a write
  -- to a file from an offset behind its 4096 bytes, a path that `sys_open` splits into arrays of 256 and 64 bytes, and
  -- an array for `sys_uname` that is too short.
  pub overruns : Request → System b → Bool
  overruns r s =
      let room : ℕ = elim r.bytes [ none ↦ 0 | some buf ↦ length buf ] in
      let given : Bool = elim r.bytes [ none ↦ false | some buf ↦ true ] in
      let path : List ℕ = elim r.bytes [ none ↦ [] | some buf ↦ c_str buf ] in
      let stdin : Bool = elim (read_keys r.edx r.keys) [
        | none ↦ false
        | some got ↦ ltb room (length got)
      ] in
      let fetches : Bool = elim (open_file r.ebx s.fds) [
        | none ↦ false
        | some f ↦ ltb room (least r.edx (avail (node_at s.nodes f) (fd_at s.fds r.ebx)))
      ] in
      let stores : Bool = elim (open_file r.ebx s.fds) [
        | none ↦ false
        | some f ↦ ltb 4096 (fd_at s.fds r.ebx).offset
      ] in
      let makes : Bool = elim (fd_alloc s.fds) [
        | none ↦ false
        | some i ↦ elim (resolve r.stack s.nodes path) [
          | some f ↦ false
          | none ↦ r.ecx / 64 % 2 == 1
        ]
      ] in
      let n = dir_length path 0 0 in
      if not given
      then false
      else if r.eax == 3
      then not (r.edx == 0) && (if r.ebx == 0 then stdin else fetches)
      else if r.eax == 4
      then not (r.edx == 0) && (not (r.ebx == 1 || r.ebx == 2) && stores)
      else if r.eax == 5
      then makes && (ltb 255 n || ltb 63 (length (drop n path)))
      else r.eax == 122 && ltb room 265

  pub outcome_of : Option (ℕ × Option (List ℕ) × System b) → Outcome b
  outcome_of none = waits
  outcome_of (some (v, out, s)) = returns v out s

  pub syscall_handler : Request → System b → Outcome b
  unfolding answer overruns outcome_of
  syscall_handler r s = if overruns r s then spills else outcome_of (answer r s)
