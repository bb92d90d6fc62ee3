-- ===== src/Http/Routes.antt =====
-- internal/infrastructure/http/server/routes.go, `handleSaleRoutes`. A path is the list of its parts
-- between slashes, as `strings.Split` gives it: "/sales/S-1" is "", "sales", "S-1".
use flashsale_service.Prelude.{
  ◌≡◌, refl, List, String, ◌∷◌, ◌≢◌, if◌then◌else◌, [], ◌==◌, ◌&&◌, arith, eq_iff,
}

pub data Method : Type 0 where
  get post other_method : Method

-- The handler that a request is given to.
pub data Endpoint : Type 0 where
  get_sale get_sale_items not_found : Endpoint

-- `strings.TrimPrefix(path, "/api/v1/sales/")`
unfoldable pub trim_prefix : List String → List String
trim_prefix (a ∷ b ∷ c ∷ d ∷ part ∷ parts) =
    if a == "" && b == "api" && c == "v1" && d == "sales"
    then part ∷ parts
    else a ∷ b ∷ c ∷ d ∷ part ∷ parts
trim_prefix parts = parts

abbrev when_get : Method → Endpoint → Endpoint
when_get get e = e
when_get post e = not_found
when_get other_method e = not_found

unfoldable pub by_parts : Method → List String → Endpoint
by_parts method (part ∷ []) = if part == "" then not_found else when_get method get_sale
by_parts method (part ∷ second ∷ []) =
    if second == "items" then when_get method get_sale_items else not_found
by_parts method parts = not_found

unfoldable pub handle_sale_routes : Method → List String → Endpoint
unfolding trim_prefix by_parts
handle_sale_routes method path = by_parts method (trim_prefix path)

-- The server mounts the function at "/sales/" and sends it the paths below: each of them is
-- answered that it is not found. The function would serve "/api/v1/sales/ID", where nothing is
-- mounted.
pub handle_sale_routes_mounted :
    (method : Method) (id : String) (rest : List String)
    → id ≢ ""
    → (handle_sale_routes method ("" ∷ "sales" ∷ rest) ≡ not_found)
      × (handle_sale_routes get ("" ∷ "api" ∷ "v1" ∷ "sales" ∷ id ∷ []) ≡ get_sale)
unfolding handle_sale_routes trim_prefix by_parts
handle_sale_routes_mounted method id rest h = (mounted rest, ground (arith, eq_iff id ""))
  where
    mounted : (rest : List String) → handle_sale_routes method ("" ∷ "sales" ∷ rest) ≡ not_found
    mounted [] = refl
    mounted (a ∷ []) = refl
    mounted (a ∷ b ∷ []) = refl
    mounted (a ∷ b ∷ c ∷ rest) = ground arith
