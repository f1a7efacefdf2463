-- ===== src/CatalogService/Products/Search.antt =====
-- The search text of the list of products: services/productService.ts makes a pattern of it.
use Prim.Native.Char.{code}
use Prim.Native.String.{String, [], ◌∷◌}
use jhaz_imprints.Common.{ℕ, Bool, ◌||◌, eqb, if◌then◌else◌}

abbrev is_special : ℕ → Bool
is_special n =
    (eqb n b'.' || (eqb n b'*' || (eqb n b'+' || (eqb n b'?' || eqb n b'^'))))
    || ((eqb n b'$' || (eqb n b'{' || (eqb n b'}' || (eqb n b'(' || eqb n b')'))))
        || (eqb n b'|' || (eqb n b'[' || (eqb n b']' || eqb n 92))))

-- `str.replace(/[.*+?^${}()|[\]\\]/g, "\\$&")`
unfoldable pub escape_reg_exp : String → String
escape_reg_exp [] = []
escape_reg_exp (c ∷ s) =
    let rest = escape_reg_exp s in if is_special (code c) then "\\" ∷ c ∷ rest else c ∷ rest
