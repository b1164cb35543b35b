-- ===== src/Products/Names.antt =====
-- The names of products: backend/application/products/use_cases.py.
use enterprise_fast_api_boil.Base.{
  ℕ, ◌≤◌, ◌≡◌, ◌⊎◌, inl, inr, refl, sym, arith, List, [], ◌∷◌, ◌++◌, map, select, count, length,
  length-select, ◌=s◌,
}
use enterprise_fast_api_boil.Base.Outcome.{ok, err, domain, duplicate, multiple_results}
use enterprise_fast_api_boil.Database.{Product}
use enterprise_fast_api_boil.Server.{Server}
use enterprise_fast_api_boil.Products.{
  ProductCreate, add_product, get_by_name, create_row, new_product,
}

module _ {Float : Type 0} (to_cents : Float → ℕ) (payload : ProductCreate to_cents)
    (s : Server) where
  abbrev pub named : ℕ
  named = count (λ p. p.name =s payload.name) s.work.products

  abbrev pub made : Product
  made = new_product to_cents (s.assign_id (map (λ p. p.id) s.work.products)) payload

  abbrev pub rows : List Product
  rows = select (λ p. p.name =s payload.name) s.work.products

  named-length : named ≡ length rows
  named-length = sym (length-select (λ p. p.name =s payload.name) s.work.products)

  -- The three ways in which it goes.
  abbrev pub Course : Type 0
  Course =
      ((named ≡ 0)
        × ((add_product to_cents payload s).0 ≡ ok made)
        × ((add_product to_cents payload s).1.work.products ≡ s.work.products ++ (made ∷ [])))
      ⊎ ((named ≡ 1)
          × (add_product to_cents payload s
              ≡ (err (domain (duplicate "product already exists")), s)))
      ⊎ ((2 ≤ named) × (add_product to_cents payload s ≡ (err multiple_results, s)))

  course_of : (found : List Product) → rows ≡ found → Course
  unfolding add_product get_by_name create_row
  course_of [] e = inl (ground (arith, named-length), rw e refl, rw e refl)
  course_of (p ∷ []) e = inr (inl (ground (arith, named-length), rw e refl))
  course_of (p ∷ q ∷ more) e = inr (inr (ground (arith, named-length), rw e refl))

  -- A new product is made exactly where no row, a deleted one included, has its name, and is then
  -- the last row. With one such row it is a duplicate, with more the query itself fails, and in
  -- both cases nothing changes.
  pub add_product_lem : Course
  add_product_lem = course_of rows refl
