-- ===== src/Messages.antt =====
-- What is printed: debug.c, and the texts of main.c. A text that a caller formats is a parameter, as
-- `vfprintf` writes it.
use multivpn.Globals.{GlobalV}
use multivpn.Prelude.Int.{ℤ, pos, int_gt}
use multivpn.Prelude.{ℕ, List, [], ◌∷◌, ◌++◌, Bytes, codes, if◌then◌else◌}

-- The text, on the standard output or on the standard error stream.
pub data Printed : Type 0 where
  to_stdout to_stderr : Bytes → Printed

unfoldable pub debug : ℕ → Bytes → GlobalV → List Printed
debug level text g =
    if int_gt g.debug (pos level)
    then to_stdout (codes "Debug INFO:  ") ∷ to_stdout text ∷ to_stdout (codes "\n") ∷ []
    else []

unfoldable pub debug_error : Bytes → List Printed
debug_error text = to_stderr (codes "Error:  ") ∷ to_stderr text ∷ to_stderr (codes "\n") ∷ []

abbrev pub program_name : Bytes
program_name = codes "MultiVPN - Multiprotocol VPN tool"

abbrev pub program_version : Bytes
program_version = codes "v0.0.1"

abbrev pub program_author : Bytes
program_author =
    codes "Gorka Gorrotxategi - zgor <zgor@int80h.net>, "
    ++ codes "Jose Ignacio Sanchez Martin - Topo[LB] <topolb@users.sourceforge.net>"

-- What is printed before the program leaves, and the status with which it leaves.
pub record Farewell : Type 0 where
  pub printed : List Printed
  pub status : ℤ

unfoldable pub show_version : Farewell
show_version = record {
  printed = to_stdout (codes "\n" ++ program_version ++ codes "\n\n") ∷ [];
  status = pos 0;
}

unfoldable pub show_banner : List Printed
show_banner =
    to_stdout (
      program_name
      ++ codes " Multiprotocol VPN tool ("
      ++ program_version
      ++ codes ").\n"
      ++ program_author
      ++ codes "\n\n")
    ∷ []

unfoldable pub usage_msg : Bytes → Farewell
unfolding show_banner
usage_msg name = record {
  printed =
      show_banner
      ++ to_stdout (codes "Usage: " ++ name ++ codes " [OPTIONS]... \n")
        ∷ to_stdout (codes "  Options:\n")
        ∷ to_stdout (codes "    --debug <debuglevel>\tprints debug information\n")
        ∷ to_stdout (codes "    -c, --configfile <file>     use specified config file, Required\n")
        ∷ to_stdout (codes "    -h, --help\t\t        display this help and exit\n")
        ∷ to_stdout (codes "    -V, --version\t        output version information and exit\n")
        ∷ to_stdout (codes "\n")
        ∷ [];
  status = pos 1;
}

unfoldable pub show_help : Farewell
unfolding usage_msg
show_help = usage_msg (program_name ++ codes " " ++ program_version)
