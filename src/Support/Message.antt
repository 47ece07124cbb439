-- ===== src/Support/Message.antt =====
-- Python's f-strings: the parts, one after the other.
use mathlib.Core.List.{List, [], ◌∷◌}
use Prim.Native.String.{String, ◌++◌}

unfoldable pub concat : List String → String
concat [] = ""
concat (part ∷ parts) = part ++ concat parts
