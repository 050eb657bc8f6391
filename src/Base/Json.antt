-- ===== src/Base/Json.antt =====
-- JSON values as encoding/json sees them: what a Go value encodes to, and the raw messages that
-- the program stores. A float that is not finite has no JSON form, and encoding it fails.
use Prim.Native.Nat.{ℕ}
use Prim.Native.String.{String}
use mathlib.Core.Bool.{Bool, true, ◌&&◌}
use mathlib.Core.List.{List, [], ◌∷◌}
use flux_lens.Base.Float.{Float64, is_finite}

mutual
  pub data Json : Type 0 where
    null : Json
    bool : Bool → Json
    nat : ℕ → Json
    float : Float64 → Json
    str : String → Json
    arr : Items → Json
    obj : Fields → Json

  pub data Items : Type 0 where
    nil : Items
    cons : Json → Items → Items

  pub data Fields : Type 0 where
    end : Fields
    field : String → Json → Fields → Fields

abbrev pub object : List (String × Json) → Fields
object [] = end
object ((k, v) ∷ more) = field k v (object more)

abbrev pub texts : List String → Items
texts [] = nil
texts (s ∷ more) = cons (str s) (texts more)

-- Whether json.Marshal returns without an error.
unfoldable mutual
  pub encodable : Json → Bool
  encodable (float f) = is_finite f
  encodable (arr xs) = encodable_items xs
  encodable (obj fs) = encodable_fields fs
  encodable _ = true

  pub encodable_items : Items → Bool
  encodable_items nil = true
  encodable_items (cons v vs) = encodable v && encodable_items vs

  pub encodable_fields : Fields → Bool
  encodable_fields end = true
  encodable_fields (field k v fs) = encodable v && encodable_fields fs
