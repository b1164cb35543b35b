-- ===== src/Products.antt =====
-- Products: backend/domain/products, backend/application/products/use_cases.py and
-- backend/app/api/v1/products/router.py. A price is a float of the request, and `to_cents` is
-- `int(round(value * 100))` of Python; the answer's price is the cents divided by a hundred. `ilike`
-- and the order of an `ORDER BY` are the database's.
pub mod Routes
pub mod Names
use enterprise_fast_api_boil.Base.{
  ℕ, String, Bool, true, false, not, ◌&&◌, ◌||◌, Option, none, some, List, [], ◌∷◌, ◌++◌, map, take,
  drop, length, select, contains, is_some, ◌==◌, ◌=s◌, if◌then◌else◌,
}
use enterprise_fast_api_boil.Base.Outcome.{
  domain, duplicate, not_found, Outcome, ok, err, Exec, pure, gets, raise_if, or_raise,
  scalar_one_or_none, ◌>>=◌, ◌>>◌,
}
use enterprise_fast_api_boil.Database.{Product, Db}
use enterprise_fast_api_boil.Server.{Server, edit}

abbrev pub is_live : Product → Bool
is_live p = not (is_some p.deleted_at)

-- `ProductRepository.get_by_name`, deleted rows included
unfoldable pub get_by_name : String → Exec Server (Option Product)
get_by_name name s = (scalar_one_or_none (select (λ p. p.name =s name) s.work.products), s)

-- `BaseRepository.get_by_id` on products
unfoldable pub get_product : ℕ → Exec Server (Option Product)
get_product i s = (scalar_one_or_none (select (λ p. p.id == i && is_live p) s.work.products), s)

-- The columns that `sort` may name.
pub data Column : Type 0 where
  id name price created_at updated_at : Column

abbrev pub sort_column : Option String → Column
sort_column none = id
sort_column (some key) =
    if key =s "name"
    then name
    else if key =s "price"
    then price
    else if key =s "created_at"
    then created_at
    else if key =s "updated_at"
    then updated_at
    else id

module _ (ilike : String → String → Bool) (lower : String → String)
    (order_by : Column → Bool → List Product → List Product) where
  abbrev matches_description : String → Option String → Bool
  matches_description search none = false
  matches_description search (some text) = ilike text search

  -- `_build_filter_query`; the term is the text between two wild cards.
  unfoldable pub is_match : Option String → Product → Bool
  is_match none p = is_live p
  is_match (some search) p =
      is_live p
      && (search =s ""
          || (ilike p.name (lower search) || matches_description (lower search) p.description))

  -- `list_with_filters`; descending where `order` is "desc".
  unfoldable pub list_with_filters :
      Option String → ℕ → ℕ → Option String → String → Exec Server (List Product)
  unfolding is_match
  list_with_filters search skip limit sort order = gets (λ s. take limit (
      drop skip (
        order_by (sort_column sort) (lower order =s "desc")
          (select (is_match search) s.work.products))))

  unfoldable pub count_with_filters : Option String → Exec Server ℕ
  unfolding is_match
  count_with_filters search = gets (λ s. length (select (is_match search) s.work.products))

unfoldable pub update_product_row : ℕ → (Product → Product) → List Product → List Product
update_product_row i f [] = []
update_product_row i f (p ∷ ps) =
    if p.id == i then f p ∷ update_product_row i f ps else p ∷ update_product_row i f ps

abbrev pub save_product : ℕ → (Product → Product) → Exec Server (Unit {0})
save_product i f = edit (λ db. record db { products = update_product_row i f db.products })

-- `ProductService.delete`
unfoldable pub delete_product_row : ℕ → Product → Exec Server (Unit {0})
delete_product_row now product = save_product product.id (λ p. record p { deleted_at = some now })

module _ {Float : Type 0} (to_cents : Float → ℕ) where
  pub record ProductCreate : Type 0 where
    pub name : String
    pub description : Option String
    pub price : Float

  -- Unset and null are the same here: `is not None`.
  pub record ProductUpdate : Type 0 where
    pub name : Option String
    pub description : Option String
    pub price : Option Float

  abbrev pub new_product : ℕ → ProductCreate → Product
  new_product new_id payload = record {
    id = new_id;
    name = payload.name;
    description = payload.description;
    price_cents = to_cents payload.price;
    deleted_at = none;
  }

  -- `ProductService.create`
  unfoldable pub create_row : ProductCreate → Exec Server Product
  create_row payload = do
    new_id ← gets (λ s. s.assign_id (map (λ p. p.id) s.work.products))
    edit (λ db. record db { products = db.products ++ (new_product new_id payload ∷ []) })
    pure (new_product new_id payload)

  abbrev pub or_old {ℓ} : {A : Type ℓ} → A → Option A → A
  or_old old none = old
  or_old old (some new) = new

  abbrev pub price_or : ℕ → Option Float → ℕ
  price_or old none = old
  price_or old (some amount) = to_cents amount

  abbrev pub description_or : Option String → Option String → Option String
  description_or old none = old
  description_or old (some text) = some text

  abbrev pub with_changes : ProductUpdate → Product → Product
  with_changes payload p = record p {
    name = or_old p.name payload.name;
    price_cents = price_or p.price_cents payload.price;
    description = description_or p.description payload.description;
  }

  -- `CreateProductUseCase.execute`
  unfoldable pub add_product : ProductCreate → Exec Server Product
  unfolding get_by_name create_row
  add_product payload = do
    existing ← get_by_name payload.name
    raise_if (is_some existing) (domain (duplicate "product already exists"))
    create_row payload

  -- `UpdateProductUseCase.execute` and `ProductService.update`
  unfoldable pub change_product : ℕ → ProductUpdate → Exec Server Product
  unfolding get_product
  change_product product_id payload = do
    found ← get_product product_id
    product ← or_raise found (domain (not_found "product not found"))
    save_product product.id (with_changes payload)
    pure (with_changes payload product)
