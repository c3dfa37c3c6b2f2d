-- ===== src/Bridge/Main.antt =====
-- `main` of nix/mcp-bridge.py: which of its two programs a command line starts.
use rebekah.Prelude.{ℕ, List, [], ◌∷◌, ◌&&◌, if◌then◌else◌}
use rebekah.Prelude.Int.{ℤ, pos, negsuc, int_ltb}
use rebekah.Prelude.Text.{Text, codes, text_eq}
use rebekah.Prelude.Exec.{Result, ok, err, Raised}
use rebekah.Http.Message.{int_of}

pub data Program : Type 0 where
  serves : Text → ℤ → Text → List Text → Program
  connects : Text → Program
  exits : ℕ → Program

abbrev uid_of : Result Raised ℤ → ℤ
uid_of (ok n) = n
uid_of (err e) = negsuc 0

-- The command has at least one word, its program.
serve_args : Text → Text → Text → List Text → Program
unfolding int_of
serve_args path uid program args =
    let allow_uid = uid_of (int_of uid) in
    if int_ltb allow_uid (pos 0) then exits 64 else serves path allow_uid program args

unfoldable pub main : List Text → Program
unfolding serve_args
main (verb ∷ path ∷ []) = if text_eq verb (codes "connect") then connects path else exits 64
main (verb ∷ path ∷ uid ∷ dashes ∷ program ∷ args) =
    if text_eq verb (codes "serve") && text_eq dashes (codes "--")
    then serve_args path uid program args
    else exits 64
main _ = exits 64
