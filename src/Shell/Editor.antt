-- ===== src/Shell/Editor.antt =====
-- shell/editor.c: the text editor. `lines` is the array of 64 line buffers, each the string that it
-- holds; drawing reads the state and changes none of it.
pub mod File
pub mod Text
pub mod Keep
mod Tests
use stellares_os.Common.{
  ℕ, zero, suc, ◌+◌, ◌-◌, Bool, true, false, ◌&&◌, ◌||◌, Option, none, some, List, [], ◌∷◌, ◌++◌,
  ltb, leb, ◌==◌, if◌then◌else◌, get_or, set, take, drop, length,
}
use stellares_os.Fs.Ram.{Nodes}
use File.{load_lines, loaded_count, serialize, open_file, write_lines, is_open}

pub record Editor : Type 0 where
  pub lines : List (List ℕ)
  pub nlines : ℕ
  pub cx : ℕ
  pub cy : ℕ
  pub scroll_y : ℕ
  pub dirty : Bool
  pub filename : List ℕ

abbrev pub max_lines : ℕ
max_lines = 64

abbrev pub line_len : ℕ
line_len = 128

abbrev pub rows : ℕ
rows = 22

abbrev pub line_at : List (List ℕ) → ℕ → List ℕ
line_at ls i = get_or ls i []

-- `while (cy >= nlines) { lines[nlines][0] = 0; nlines++; }`, with one round for each line.
pub extend : ℕ → Editor → Editor
extend zero e = e
extend (suc f) e =
    let more = extend f (record e { lines = set e.lines e.nlines []; nlines = e.nlines + 1 }) in
    if leb e.nlines e.cy then more else e

-- The bytes from `cx` on and the terminator move up by one; a column past the end writes behind the
-- terminator.
pub insert_at : List ℕ → ℕ → ℕ → List ℕ
insert_at line cx c = if leb cx (length line) then take cx line ++ (c ∷ drop cx line) else line

pub insert_char : ℕ → Editor → Editor
unfolding insert_at
insert_char c e =
    if leb max_lines e.cy
    then e
    else (let e1 = if e.nlines == 0 then record e { nlines = 1; lines = set e.lines 0 [] } else e in
        let e2 = extend max_lines e1 in
        let line = line_at e2.lines e2.cy in
        if leb (line_len - 1) (length line) then e2 else record e2 {
          lines = set e2.lines e2.cy (insert_at line e2.cx c);
          cx = e2.cx + 1;
          dirty = true;
        })

-- `for (i = cx - 1; i < len; i++) line[i] = line[i + 1];`
pub remove_before : List ℕ → ℕ → List ℕ
remove_before line cx = take (cx - 1) line ++ drop cx line

-- `for (; k > 0; k--, i++) strcpy(lines[i], lines[i + 1]);`
pub move_up : List (List ℕ) → ℕ → ℕ → List (List ℕ)
move_up ls zero i = ls
move_up ls (suc k) i = move_up (set ls i (line_at ls (i + 1))) k (i + 1)

-- `for (; k > 0; k--, i--) strcpy(lines[i], lines[i - 1]);`
pub move_down : List (List ℕ) → ℕ → ℕ → List (List ℕ)
move_down ls zero i = ls
move_down ls (suc k) i = move_down (set ls i (line_at ls (i - 1))) k (i - 1)

-- The part of `ed_delete_char` that joins the line with the one before it.
pub join_lines : Editor → Editor
join_lines e =
    let prev = line_at e.lines (e.cy - 1) in
    let line = line_at e.lines e.cy in
    if ltb (length prev + length line) (line_len - 1)
    then record e {
      lines = move_up (set e.lines (e.cy - 1) (prev ++ line)) (e.nlines - 1 - e.cy) e.cy;
      cx = length prev;
      nlines = e.nlines - 1;
      cy = e.cy - 1;
      dirty = true;
    }
    else e

pub delete_char : Editor → Editor
unfolding remove_before
delete_char e =
    if leb e.nlines e.cy
    then e
    else if ltb 0 e.cx
    then record e {
      lines = set e.lines e.cy (remove_before (line_at e.lines e.cy) e.cx);
      cx = e.cx - 1;
      dirty = true;
    }
    else if ltb 0 e.cy
    then join_lines e
    else e

pub newline : Editor → Editor
newline e =
    if leb max_lines e.nlines
    then e
    else (let moved = move_down e.lines (e.nlines - (e.cy + 1)) e.nlines in
        let line = line_at e.lines e.cy in
        record e {
          lines = set (set moved (e.cy + 1) (drop e.cx line)) e.cy (take e.cx line);
          nlines = e.nlines + 1;
          cy = e.cy + 1;
          cx = 0;
          scroll_y = if leb rows (e.cy + 1 - e.scroll_y) then e.scroll_y + 1 else e.scroll_y;
          dirty = true;
        })

pub kill_line : Editor → Editor
kill_line e =
    if leb e.nlines e.cy
    then e
    else (let moved = move_up e.lines (e.nlines - 1 - e.cy) e.cy in
        let emptied = e.nlines - 1 == 0 in
        let n = if emptied then 1 else e.nlines - 1 in
        record e {
          lines = if emptied then set moved 0 [] else moved;
          nlines = n;
          cy = if leb n e.cy then n - 1 else e.cy;
          cx = 0;
          dirty = true;
        })

abbrev clamp : ℕ → ℕ → ℕ
clamp x len = if ltb len x then len else x

pub key_up : Editor → Editor
key_up e =
    if ltb 0 e.cy
    then (let cy' = e.cy - 1 in
        let len = if ltb cy' e.nlines then length (line_at e.lines cy') else 0 in
        record e {
          cy = cy';
          cx = clamp e.cx len;
          scroll_y = if ltb cy' e.scroll_y then e.scroll_y - 1 else e.scroll_y;
        })
    else e

abbrev scrolled : Editor → ℕ → ℕ
scrolled e cy' = if leb rows (cy' - e.scroll_y) then e.scroll_y + 1 else e.scroll_y

pub key_down : Editor → Editor
key_down e =
    if ltb e.cy (e.nlines - 1)
    then record e {
      cy = e.cy + 1;
      cx = clamp e.cx (length (line_at e.lines (e.cy + 1)));
      scroll_y = scrolled e (e.cy + 1);
    }
    else e

pub key_left : Editor → Editor
key_left e =
    if ltb 0 e.cx
    then record e { cx = e.cx - 1 }
    else if ltb 0 e.cy
    then record e {
      cy = e.cy - 1;
      cx = length (line_at e.lines (e.cy - 1));
      scroll_y = if ltb (e.cy - 1) e.scroll_y then e.scroll_y - 1 else e.scroll_y;
    }
    else e

pub key_right : Editor → Editor
key_right e =
    let len = if ltb e.cy e.nlines then length (line_at e.lines e.cy) else 0 in
    if ltb e.cx len
    then record e { cx = e.cx + 1 }
    else if ltb e.cy (e.nlines - 1)
    then record e { cy = e.cy + 1; cx = 0; scroll_y = scrolled e (e.cy + 1) }
    else e

pub key_home : Editor → Editor
key_home e = record e { cx = 0 }

pub key_end : Editor → Editor
key_end e = if ltb e.cy e.nlines then record e { cx = length (line_at e.lines e.cy) } else e

-- What a key does that neither saves nor leaves: the rest of the loop of `editor_run`.
pub edit_key : ℕ → Editor → Editor
unfolding kill_line key_up key_down key_left key_right key_home key_end newline delete_char
    insert_char
edit_key c e =
    if c == 11
    then kill_line e
    else if c == 0x100
    then key_up e
    else if c == 0x101
    then key_down e
    else if c == 0x102
    then key_left e
    else if c == 0x103
    then key_right e
    else if c == 0x117
    then key_home e
    else if c == 0x118
    then key_end e
    else if c == 10 || c == 13
    then newline e
    else if c == 8
    then delete_char e
    else if leb 32 c && ltb c 127
    then insert_char c e
    else e

-- The state that `ed_load` leaves, from the bytes of the file, if there is one that is not empty.
pub ed_load : Option (List ℕ) → Editor → Editor
ed_load none e = record e { lines = set e.lines 0 []; nlines = 1; cx = 0; cy = 0; scroll_y = 0 }
ed_load (some bytes) e = record e {
  lines = load_lines (set e.lines 0 []) bytes;
  nlines = loaded_count bytes;
  cx = 0;
  cy = 0;
  scroll_y = 0;
}

pub ed_save : Editor → Nodes → Editor × Nodes
ed_save e ns =
    let opened = open_file ns e.filename in
    (
      if is_open opened then record e { dirty = false } else e,
      write_lines opened (serialize (take e.nlines e.lines) 0),
    )

-- Whether the loop of `editor_run` ends on this key; `answer` is the key pressed when it asks.
pub quits : ℕ → ℕ → Editor → Bool
quits c answer e =
    if c == 17 || c == 27
    then (if e.dirty
        then (answer == 115 || answer == 83) || (answer == 110 || answer == 78)
        else true)
    else false

-- One round of the loop of `editor_run`.
pub run_key : ℕ → ℕ → Editor → Nodes → Editor × Nodes
unfolding ed_save edit_key
run_key c answer e ns =
    if c == 19 || c == 0x10B
    then ed_save e ns
    else if c == 17 || c == 27
    then (if e.dirty && (answer == 115 || answer == 83) then ed_save e ns else (e, ns))
    else (edit_key c e, ns)
