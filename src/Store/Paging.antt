-- ===== src/Store/Paging.antt =====
-- ORDER BY, LIMIT and OFFSET, which the list queries of invoices, customers and products end with.
pub mod Laws
pub mod Order
use go_invoicing.Base.{
  ℕ, zero, suc, ◌+◌, Bool, not, ltb, ◌==◌, ◌&&◌, ◌||◌, false, List, [], ◌∷◌, ◌++◌, if◌then◌else◌,
}
use go_invoicing.Base.Text.{Text}

module _ {ℓ} {A : Type ℓ} where
  abbrev pub insert_row : (A → A → Bool) → A → List A → List A
  insert_row p i [] = i ∷ []
  insert_row p i (j ∷ js) = let rest = insert_row p i js in if p i j then i ∷ j ∷ js else j ∷ rest

  abbrev pub sort_rows : (A → A → Bool) → List A → List A
  sort_rows p [] = []
  sort_rows p (i ∷ is) = insert_row p i (sort_rows p is)

  abbrev pub take : ℕ → List A → List A
  take zero xs = []
  take (suc n) [] = []
  take (suc n) (x ∷ xs) = x ∷ take n xs

  abbrev pub drop : ℕ → List A → List A
  drop zero xs = xs
  drop (suc n) [] = []
  drop (suc n) (x ∷ xs) = drop n xs

  -- ORDER BY column direction, id ASC, for the order of the column
  abbrev pub row_before : (A → A → Bool) → (A → ℕ) → Bool → A → A → Bool
  row_before column id ascending x y =
      if column x y then ascending else if column y x then not ascending else ltb (id x) (id y)

  abbrev pub paged : (A → A → Bool) → ℕ → ℕ → List A → List A
  paged before limit offset xs = take limit (drop offset (sort_rows before xs))

  -- The rows of `count` successive requests, each for the offset after the last one's page.
  abbrev pub visit : (ℕ → List A) → ℕ → ℕ → ℕ → List A
  visit request limit offset zero = []
  visit request limit offset (suc count) =
      request offset ++ visit request limit (offset + limit) count

-- strings.EqualFold(order, "desc"); the letter s has a third form, U+017F.
unfoldable pub is_descending : Text → Bool
is_descending (d ∷ e ∷ s ∷ c ∷ []) =
    (d == b'd' || d == b'D')
    && (e == b'e' || e == b'E')
    && (s == b's' || s == b'S' || s == 0x17F)
    && (c == b'c' || c == b'C')
is_descending _ = false
