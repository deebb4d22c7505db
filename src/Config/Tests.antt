-- ===== src/Config/Tests.antt =====
-- Runs of the configuration store, and its theorems at small files. Floats are their texts here.
use Prim.Native.Char.{code}
use Prim.Native.String.{String}
use net_serve.Prelude.{◌≡◌, refl, true, false, some, List, [], ◌∷◌, arith, Bytes, str_eq}
use net_serve.Config.Store.{
  pos, string, int, float, bool, Item, find_config_item, set_value, add_config_item,
}
use net_serve.Config.Text.{parse_line, parse_value, fgets, before, strtok, trim, strip_end}
use net_serve.Config.File.{FloatLib, load_line, load_lines, load_from_file, print_int, save_to_file}
use net_serve.Config.Lookup.{Distinct}
use net_serve.Config.Lines.{IsWord}
use net_serve.Config.RoundTrip.{IsPrintable, load_from_file-save_to_file}
use net_serve.Config.Numbers.{int-IsPrintable, bool-IsPrintable}

-- The code points of a text, which are its bytes here.
abbrev codes : String → Bytes
codes String.[] = []
codes (String.◌∷◌ c s) = code c ∷ codes s

abbrev texts : FloatLib
texts = record { F = Bytes; atof = λ s. s; print = λ s. s }

abbrev Items : Type 0
Items = List (Item Bytes)

abbrev port : Item Bytes
port = record { key = codes "port"; value = int (pos 8081) }

abbrev debug : Item Bytes
debug = record { key = codes "debug"; value = bool false }

abbrev file : Bytes
file = codes "# net\n\nport = 8081 # tcp\n debug=false\nhost=0.0.0.0\nlevel=1\nname==a=b\n"

load_file :
    load_from_file texts (λ _. true) (some file) []
    ≡ some (
      true,
      port
          ∷ debug
          ∷ record { key = codes "host"; value = float (codes "0.0.0.0") }
          ∷ record { key = codes "level"; value = bool true }
          ∷ record { key = codes "name"; value = string (some (codes "a")) }
          ∷ [],
    )
unfolding load_from_file load_lines load_line parse_line parse_value fgets before strtok trim
    set_value find_config_item str_eq add_config_item
load_file = refl

two-Distinct : Distinct (port ∷ debug ∷ [])
unfolding str_eq
two-Distinct = (refl, (refl, tt))

port-IsWord : IsWord (codes "port")
unfolding strip_end
port-IsWord = record { plain = omega arith; starts = refl; ends = refl }

debug-IsWord : IsWord (codes "debug")
unfolding strip_end
debug-IsWord = record { plain = omega arith; starts = refl; ends = refl }

port-IsPrintable : IsPrintable texts port
unfolding print_int
port-IsPrintable =
    int-IsPrintable texts (codes "port") (pos 8081) port-IsWord (λ e. cc) (λ e. cc) (omega arith)

load_from_file-save_to_file_example :
    load_from_file texts (λ _. true) (some (save_to_file texts (port ∷ debug ∷ []))) []
    ≡ some (true, port ∷ debug ∷ [])
load_from_file-save_to_file_example =
    load_from_file-save_to_file texts (port ∷ debug ∷ [])
      (
        port-IsPrintable,
        (bool-IsPrintable texts (codes "debug") false debug-IsWord (omega arith), tt),
      )
      two-Distinct
