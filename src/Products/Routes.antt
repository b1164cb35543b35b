-- ===== src/Products/Routes.antt =====
-- The handlers of backend/app/api/v1/products/router.py. The message to the sockets is left out.
use enterprise_fast_api_boil.Base.{
  ℕ, String, Bool, Option, none, some, List, [], ◌∷◌, ◌=s◌, if◌then◌else◌,
}
use enterprise_fast_api_boil.Base.Dict.{Dict, text_key, get, put}
use enterprise_fast_api_boil.Base.Outcome.{
  http, ok, Exec, pure, gets, or_raise, as_http, ◌>>=◌, ◌>>◌,
}
use enterprise_fast_api_boil.Database.{Product}
use enterprise_fast_api_boil.Server.{Server, log}
use enterprise_fast_api_boil.Rbac.Queries.{Actor}
use enterprise_fast_api_boil.Admin.{require_role}
use enterprise_fast_api_boil.Profile.Routes.{PaginatedResponse, page_meta}
use enterprise_fast_api_boil.Products.{
  Column, get_product, delete_product_row, list_with_filters, count_with_filters, ProductCreate,
  ProductUpdate, add_product, change_product,
}

abbrev pub admin_or_staff : List String
admin_or_staff = "admin" ∷ "staff" ∷ []

-- GET /products/
unfoldable pub list_products :
    (String → String → Bool)
    → (String → String)
    → (Column → Bool → List Product → List Product)
    → Option String
    → ℕ
    → ℕ
    → Option String
    → String
    → Exec Server (PaginatedResponse Product)
unfolding list_with_filters count_with_filters page_meta
list_products ilike lower order_by search skip limit sort order = do
  products ← list_with_filters ilike lower order_by search skip limit sort order
  total ← count_with_filters ilike lower order_by search
  pure (record { items = products; meta = page_meta skip limit total })

-- GET /products/{product_id}
unfoldable pub read_product : ℕ → Exec Server Product
unfolding get_product
read_product product_id = do
  found ← get_product product_id
  or_raise found (http 404 "product not found")

-- The session, and `IDEMPOTENCY_STORE`, whose keys stand here without their prefix "products:create:".
pub record Shop : Type 0 where
  pub server : Server
  pub responses : Dict String Product

abbrev pub at_shop : {A : Type 0} → Exec Server A → Exec Shop A
at_shop m d = let (r, s) = m d.server in (r, record d { server = s })

abbrev pub kept_product : Option String → Shop → Option Product
kept_product none d = none
kept_product (some key) d = if key =s "" then none else get key d.responses

abbrev pub keep_product : Option String → Product → Shop → Shop
keep_product none p d = d
keep_product (some key) p d =
    if key =s "" then d else record d { responses = put key p d.responses }

module _ {Float : Type 0} (to_cents : Float → ℕ) where
  abbrev pub create_new : Option String → ProductCreate to_cents → Exec Shop Product
  create_new key payload = do
    product ← at_shop (λ s. let (r, s') = add_product to_cents payload s in (as_http r, s'))
    at_shop (log "product.created")
    (λ d. (ok tt, keep_product key product d))
    pure product

  abbrev pub or_create_new :
      Option String → ProductCreate to_cents → Option Product → Exec Shop Product
  or_create_new key payload (some product) = pure product
  or_create_new key payload none = create_new key payload

  -- POST /products/
  unfoldable pub create_product : Actor → Option String → ProductCreate to_cents → Exec Shop Product
  unfolding require_role add_product
  create_product actor idempotency_key payload = do
    at_shop (require_role actor admin_or_staff)
    cached ← gets (kept_product idempotency_key)
    or_create_new idempotency_key payload cached

  -- PUT /products/{product_id}
  unfoldable pub update_product : Actor → ℕ → ProductUpdate to_cents → Exec Server Product
  unfolding require_role change_product
  update_product actor product_id payload = do
    require_role actor admin_or_staff
    product ← (λ s. let (r, s') = change_product to_cents product_id payload s in (as_http r, s'))
    log "product.updated"
    pure product

-- DELETE /products/{product_id}
unfoldable pub delete_product : ℕ → Actor → ℕ → Exec Server (Unit {0})
unfolding require_role get_product delete_product_row
delete_product now actor product_id = do
  require_role actor admin_or_staff
  found ← get_product product_id
  product ← or_raise found (http 404 "product not found")
  delete_product_row now product
  log "product.deleted"
