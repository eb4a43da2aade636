-- ===== src/Shell/Stellash/Execute/Reach.antt =====
-- Every state that a session of shell/stellash.c can reach.
use stellares_os.Common.{ℕ, ◌+◌, ◌<◌, length, ◌≡◌, false, List}
use stellares_os.Fs.Device.{BlockDevice}
use stellares_os.Shell.Stellash.{Shell, parse}
use stellares_os.Shell.Stellash.Line.{trim}
use stellares_os.Shell.Stellash.Execute.{Outside, Session, goes_on, execute}
use stellares_os.Shell.Stellash.Execute.Keep.{bars}

module _ {b : BlockDevice} where
  -- A line is entered behind which the shell goes on: one that is not barred, has fewer than sixteen words, and fits
  -- the arrays for a path together with the current one, which still fits its array behind it. Or time passes, a
  -- line is read and the prompt is drawn, which leaves the tree and the current directory alone.
  pub data Step (t : Session b) : Session b → Type 0 where
    enter :
        {u : Session b} (input : List ℕ) (o : Outside)
        → bars (parse (trim input)) ≡ false
        → length (parse (trim input)) < 16
        → length t.shell.cwd_path + length (trim input) < 255
        → execute input o t ≡ goes_on u
        → length u.shell.cwd_path < 256
        → Step t u
    wait :
        (s : Shell b)
        → s.nodes ≡ t.shell.nodes
        → s.cwd_node ≡ t.shell.cwd_node
        → Step t (record t { shell = s })

  pub data Reach (t : Session b) : Session b → Type 0 where
    here : Reach t t
    next : {u w : Session b} → Reach t u → Step u w → Reach t w
