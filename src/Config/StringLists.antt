-- ===== src/Config/StringLists.antt =====
-- Lists that are written as one text: `_parse_string_list` of backend/core/config.py.
use enterprise_fast_api_boil.Base.{
  ℕ, ◌≡◌, refl, arith, Bool, true, false, Option, List, [], ◌∷◌, ◌++◌, any, All, ◌==◌,
}
use enterprise_fast_api_boil.Config.{
  Text, comma, split, strip, is_full, clean, starts_with_bracket, written, parse_string_list,
}

-- `",".join(items)`
abbrev pub join : List Text → Text
join [] = []
join (item ∷ []) = item
join (item ∷ next ∷ items) = item ++ (comma ∷ join (next ∷ items))

pub split_last : (item : Text) → any (λ c. c == comma) item ≡ false → split item ≡ item ∷ []
unfolding split
split_last [] h = refl
split_last (c ∷ cs) h = ground (arith, split_last cs)

pub split-append :
    (item rest : Text)
    → any (λ c. c == comma) item ≡ false
    → split (item ++ (comma ∷ rest)) ≡ item ∷ split rest
unfolding split
split-append [] rest h = refl
split-append (c ∷ cs) rest h = ground (arith, split-append cs rest)

module _ (is_space : ℕ → Bool) where
  -- A text that stands for itself in a list: without a comma, not empty, and as it is without the
  -- white space around it.
  abbrev pub IsPlain : Text → Type 0
  IsPlain item =
      (any (λ c. c == comma) item ≡ false)
      × (is_full is_space item ≡ true)
      × (strip is_space item ≡ item)

  clean-split :
      (item : Text) (items : List Text)
      → All IsPlain (item ∷ items)
      → clean is_space (split (join (item ∷ items))) ≡ item ∷ items
  unfolding clean
  clean-split item [] ((a, b, c), rest) = rw (split_last item a) (ground (arith, b, c))
  clean-split item (next ∷ items) ((a, b, c), rest) =
      rw (split-append item (join (next ∷ items)) a)
        (ground (arith, b, c, clean-split next items rest))

  -- A list of plain texts that is written with commas between them is read back as it was, where the
  -- text does not begin like a JSON list.
  pub string_list_roundtrip :
      (loads : Text → Option (List Text)) (items : List Text)
      → All IsPlain items
      → starts_with_bracket is_space (join items) ≡ false
      → parse_string_list is_space loads (written (join items)) ≡ items
  unfolding parse_string_list clean split
  string_list_roundtrip loads [] plain h = refl
  string_list_roundtrip loads (item ∷ items) plain h = rw h (clean-split item items plain)
