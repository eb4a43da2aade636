-- ===== src/Shell/Stellash/Line.antt =====
-- The line that `execute` of shell/stellash.c is given: its blanks, and the command that its first word names.
use stellares_os.Common.{ℕ, Bool, ◌||◌, List, [], ◌∷◌, ◌==◌, if◌then◌else◌, codes, str_eq}

abbrev pub blank : ℕ → Bool
blank c = c == 32 || c == 9

-- `while (*line == ' ' || *line == '\t') line++`
unfoldable pub skip_blanks : List ℕ → List ℕ
skip_blanks [] = []
skip_blanks (c ∷ s) = if blank c then skip_blanks s else c ∷ s

abbrev pub keep_end : ℕ → List ℕ → List ℕ
keep_end c [] = if blank c || c == 10 then [] else c ∷ []
keep_end c (d ∷ s) = c ∷ d ∷ s

-- The loop from the end of the line, for the bytes behind the first.
unfoldable pub cut_end : List ℕ → List ℕ
cut_end [] = []
cut_end (c ∷ s) = keep_end c (cut_end s)

abbrev pub cut_behind : List ℕ → List ℕ
cut_behind [] = []
cut_behind (c ∷ s) = c ∷ cut_end s

unfoldable pub trim : List ℕ → List ℕ
unfolding skip_blanks cut_end
trim line = cut_behind (skip_blanks line)

-- The commands, in the order in which they are compared.
pub data Command : Type 0 where
  help clear_all ls cd pwd cat touch mkdir rm cp mv write edit echo mem : Command
  disk uname uptime ps kill neofetch snake exec spkg reboot halt unknown : Command

unfoldable pub command_of : List ℕ → Command
command_of name =
    let is = λ (text : List ℕ). str_eq name text in
    if is (codes "help")
    then help
    else if is (codes "clear")
    then clear_all
    else if is (codes "ls")
    then ls
    else if is (codes "cd")
    then cd
    else if is (codes "pwd")
    then pwd
    else if is (codes "cat")
    then cat
    else if is (codes "touch")
    then touch
    else if is (codes "mkdir")
    then mkdir
    else if is (codes "rm")
    then rm
    else if is (codes "cp")
    then cp
    else if is (codes "mv")
    then mv
    else if is (codes "write")
    then write
    else if is (codes "edit")
    then edit
    else if is (codes "echo")
    then echo
    else if is (codes "mem")
    then mem
    else if is (codes "disk")
    then disk
    else if is (codes "uname")
    then uname
    else if is (codes "uptime")
    then uptime
    else if is (codes "ps")
    then ps
    else if is (codes "kill")
    then kill
    else if is (codes "neofetch")
    then neofetch
    else if is (codes "snake")
    then snake
    else if is (codes "exec")
    then exec
    else if is (codes "spkg")
    then spkg
    else if is (codes "reboot")
    then reboot
    else if is (codes "halt")
    then halt
    else unknown
