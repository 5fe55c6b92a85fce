-- ===== src/Aggregate/Order/Totals.antt =====
-- The items of an order and its total.
use api_time_machine.Prelude.{
  String, not, ◌≡◌, refl, ap, sym, ◌∙◌, none, some, List, [], ◌∷◌, filter, str_eq,
}
use api_time_machine.Prelude.Int.{
  ℤ, pos, ◌+ℤ◌, ◌*ℤ◌, wrap64, add64, mul64, wrap64-+ℤ, +ℤ_assoc, +ℤ_comm, +ℤ-zero, Int64, wrap64_id,
}
use api_time_machine.Prelude.Compact.{compact-eq-filter}
use api_time_machine.Aggregate.Order.{
  Item, Slice, Order, elements, remove_product, total_from, recalc_total,
}

-- The sum of price times quantity, in unbounded integers.
unfoldable pub exact_total : List Item → ℤ
exact_total [] = pos 0
exact_total (i ∷ is) = i.price_cents *ℤ i.quantity +ℤ exact_total is

add64-wrap64 : (a b c : ℤ) → add64 (wrap64 a) (mul64 b c) ≡ wrap64 (a +ℤ b *ℤ c)
unfolding add64 mul64
add64-wrap64 a b c =
    wrap64-+ℤ a (wrap64 (b *ℤ c))
    ∙ ap wrap64 (+ℤ_comm a (wrap64 (b *ℤ c)))
    ∙ wrap64-+ℤ (b *ℤ c) a
    ∙ ap wrap64 (+ℤ_comm (b *ℤ c) a)

total_from-wrap64 :
    (total : ℤ) (is : List Item) → total_from (wrap64 total) is ≡ wrap64 (total +ℤ exact_total is)
unfolding total_from exact_total
total_from-wrap64 total [] = ap wrap64 (sym (+ℤ-zero total))
total_from-wrap64 total (i ∷ is) = rw (add64-wrap64 total i.price_cents i.quantity) (
    total_from-wrap64 (total +ℤ i.price_cents *ℤ i.quantity) is
    ∙ ap wrap64 (+ℤ_assoc total (i.price_cents *ℤ i.quantity) (exact_total is)))

-- The total of an order is the exact sum of price times quantity over its items, wrapped once to an
-- int64, and is that sum where the sum fits an int64.
pub recalc_total_lem :
    (o : Order)
    → ((recalc_total o).total_cents ≡ wrap64 (exact_total (elements o.items)))
      × (Int64 (exact_total (elements o.items))
          → (recalc_total o).total_cents ≡ exact_total (elements o.items))
unfolding recalc_total wrap64
recalc_total_lem o =
    let wrapped = total_from-wrap64 (pos 0) (elements o.items) in
    let summed = ap wrap64 (
      +ℤ_comm (pos 0) (exact_total (elements o.items))
      ∙ +ℤ-zero (exact_total (elements o.items))) in
    (wrapped ∙ summed, λ h. wrapped ∙ summed ∙ wrap64_id (exact_total (elements o.items)) h)

-- Removing a product leaves the items of the other products, in their order, and no item of that
-- product, though the loop writes into the array that it reads.
pub elements-remove_product :
    (product_id : String) (items : Slice)
    → elements (remove_product product_id items)
      ≡ filter (λ i. not (str_eq i.product_id product_id)) (elements items)
unfolding remove_product
elements-remove_product product_id none = refl
elements-remove_product product_id (some is) =
    compact-eq-filter (λ i. not (str_eq i.product_id product_id)) is
