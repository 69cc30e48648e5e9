-- ===== src/Common/Text.antt =====
-- A text literal of the source as its bytes; every literal modelled is ASCII.
use Prim.Native.Char.{code}
use Prim.Native.String.{String}
use mathlib.Core.List.{[], ◌∷◌}
use magic_wormhole_rs.Common.Lists.{Bytes}

abbrev pub codes : String → Bytes
codes String.[] = []
codes (String.◌∷◌ c s) = code c ∷ codes s
