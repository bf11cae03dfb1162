-- ===== src/Acp/Select.antt =====
-- Which option `select_option` of acp.rs takes.
use Prim.Native.String.{◌++◌ as append, ◌∷◌ as char_then, [] as nothing}
use cap_protocol.Prelude.{String, Bool, true, Option, some, List, [], ◌∷◌, ◌≡◌, Member}
use mathlib.Core.Option
use cap_protocol.Core.{Foreign}
use cap_protocol.Json.{str_at}
use cap_protocol.Acp.Driver.{family, kind_of}

module _ (x : Foreign) (to_lowercase : String → String) where
  -- An option of the list, whose kind is of the family, and whose `optionId` is `id`
  abbrev pub IsFitting : Bool → List x.Value → String → Type 0
  IsFitting allow os id =
      (o : x.Value) × Member o os
      × (family allow (kind_of x to_lowercase o) ≡ true)
      × (str_at x "optionId" o ≡ some id)
