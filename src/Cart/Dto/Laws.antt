-- ===== src/Cart/Dto/Laws.antt =====
-- The subtotal that a client is shown.
use hop_and_barley_store.Prelude.{
  ℕ, ◌+◌, ◌≤◌, ◌≡◌, List, [], ◌∷◌, map, arith, leb, Option-cases, inl, inr, if◌then◌else◌,
}
use hop_and_barley_store.Catalog.Amount.{max_money_minor, add_money_minor, or_else}
use hop_and_barley_store.Catalog.Product.{Product}
use hop_and_barley_store.Cart.Dto.{to_cart_item_dto, to_cart_dto, subtotal_from, line_total}

-- The exact sum of the line totals that exist.
abbrev pub sum_of_totals : ℕ → List (Product × ℕ) → ℕ
sum_of_totals at [] = 0
sum_of_totals at ((p, amount) ∷ lines) = or_else (line_total p amount at) 0 + sum_of_totals at lines

subtotal_from_lem :
    (at subtotal : ℕ) (lines : List (Product × ℕ))
    → subtotal ≤ max_money_minor
    → subtotal_from subtotal (map (to_cart_item_dto at) lines) ≡ (
        if leb (subtotal + sum_of_totals at lines) max_money_minor
        then subtotal + sum_of_totals at lines
        else 0)
unfolding subtotal_from to_cart_item_dto add_money_minor
subtotal_from_lem at subtotal [] h = ground arith
subtotal_from_lem at subtotal ((p, amount) ∷ lines) h =
    elim (Option-cases (line_total p amount at)) [
      | inl e ↦ ground (arith, e, subtotal_from_lem at subtotal lines)
      | inr (t, e) ↦ ground (arith, e, subtotal_from_lem at (subtotal + t) lines)
    ]

-- The cart's subtotal is the sum of the totals of its priced lines, or 0 where that sum exceeds the
-- money bound.
pub subtotal_is_sum :
    (at : ℕ) (lines : List (Product × ℕ))
    → (to_cart_dto lines at).subtotal_minor
      ≡ (if leb (sum_of_totals at lines) max_money_minor then sum_of_totals at lines else 0)
unfolding to_cart_dto
subtotal_is_sum at lines = ground (arith, subtotal_from_lem at 0 lines)
