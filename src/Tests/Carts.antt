-- ===== src/Tests/Carts.antt =====
-- Calls of the cart service on the shop.
use hop_and_barley_store.Prelude.{
  ℕ, ◌+◌, ◌≡◌, ◌≢◌, refl, sym, subst, true, false, ◌==◌, if◌then◌else◌, none, some, ◌∷◌, [], arith,
  All, inl, inr, Bool-cases, String, ◌↔◌, ◌⊎◌,
}
use hop_and_barley_store.Catalog.Amount.{
  is_public_product_eligible, is_valid_order_amount, calculate_line_total_minor,
}
use hop_and_barley_store.Catalog.Amount.Laws.{IsOrderAmount, valid-IsOrderAmount_iff}
use hop_and_barley_store.Cart.Readiness.{is_sold, checkout_line_outcome, available}
use hop_and_barley_store.Cart.Readiness.Laws.{IsBuyable}
use hop_and_barley_store.Cart.Dto.{CartDto, to_cart_dto, empty}
use hop_and_barley_store.Store.{
  Database, Order, has_order, find_user_cart, find_slug, find_product, find_cart, delete_cart,
}
use hop_and_barley_store.Store.Items.{amount_of, count_items}
use hop_and_barley_store.Store.Items.Laws.{IsKeyed}
use hop_and_barley_store.Store.Transaction.{ok, err, unauthorized}
use hop_and_barley_store.Cart.Service.{
  ActiveCartAccess, guest, account, cart_of, add, update, remove, clear, find_line, load_cart,
}
use hop_and_barley_store.Cart.Service.Effects.{IsOpen}
use hop_and_barley_store.Cart.Service.Laws.{
  Assigns, amount_in, update-Assigns, remove-Assigns, clear_empties, closed_cart_refuses,
}
use hop_and_barley_store.Cart.Service.Accepts.{add_succeeds}
use hop_and_barley_store.Cart.Read.{checkout_readiness, CheckoutReadiness, ready}
use hop_and_barley_store.Cart.Read.Laws.{ready_iff}
use hop_and_barley_store.Catalog.Product.{Product}
use hop_and_barley_store.Cart.Account.{
  find_active_guest, digest_of, Fresh, merge_guest_into_account, succeeded, MergeOutcome,
}
use hop_and_barley_store.Cart.Account.Merge.{IsMerged, merge_keeps_larger, merge_refused_by_order}
use hop_and_barley_store.Cart.Calls.{step, adds}
use hop_and_barley_store.Cart.Invariant.{CartsOk, IsOrderable}
use hop_and_barley_store.Cart.Invariant.Preserved.{step-CartsOk}
use hop_and_barley_store.Tests.{shop, cancelled_order, tea, hops, guest_cart, ann_cart, line}
use hop_and_barley_store.Store
use hop_and_barley_store.Cart

runs : Unit {0}
unfolding Cart.Service.add Cart.Service.update Cart.Service.remove Cart.Service.clear
    Cart.Service.open_cart Cart.Service.lock_cart Cart.Service.require_active_cart
    Cart.Service.require_cart_product Cart.Service.add_line Cart.Service.require_valid_cart_amount
    Cart.Service.find_line Cart.Service.load_cart Cart.Service.lines_of Store.find_cart
    Store.has_order Store.find_slug Store.find_product is_sold is_public_product_eligible amount_of
    is_valid_order_amount Store.Items.update_item Store.Items.delete_item
    Store.Items.delete_cart_items Cart.Account.merge_guest_into_account Cart.Account.merge_carts
    Cart.Account.merge_into Cart.Account.merge_two Cart.Account.ensure_account_cart
    Cart.Account.find_active_guest Cart.Account.digest_of
    Cart.Account.require_canonical_merged_items Cart.Account.merge_amounts Cart.Account.amounts_from
    Cart.Account.map_get Cart.Account.map_set Cart.Account.selected Cart.Account.all_valid
    Cart.Account.upsert_all Cart.Account.remove_cart Cart.Service.lock_active_user Store.find_user
    Store.find_user_cart Store.find_guest_cart Store.find_cart_order Store.delete_cart
    Store.Items.items_of Store.Items.upsert_item Cart.Read.checkout_readiness Cart.Read.is_readable
    Cart.Read.readiness_line Cart.Read.all_available Cart.Read.status_of checkout_line_outcome
    calculate_line_total_minor
runs = tt

abbrev at_guest : ActiveCartAccess
at_guest = guest 1 1_000 "token"

-- The shop after the guest added 3 to the 4 in the cart.
abbrev added : Database
added = record shop { items = line 1 1 7 ∷ line 2 2 300_000 ∷ line 2 1 2 ∷ [] }

abbrev at_ann : ActiveCartAccess
at_ann = account 2 "session" 7

abbrev updated : Database
updated = record shop { items = line 1 1 4 ∷ line 2 2 500_000 ∷ line 2 1 2 ∷ [] }

updated_run :
    update at_ann "hops" 500_000 50 shop
    ≡ ok (to_cart_dto ((hops, 500_000) ∷ (tea, 2) ∷ []) 50, updated)
unfolding runs
updated_run = refl

update-Assigns_example :
    (p : Product) × (find_line "hops" (load_cart (cart_of at_ann) shop) ≡ some p)
    × (is_public_product_eligible p.eligibility 50 ≡ true)
    × IsOpen at_ann 50 shop
    × IsOrderAmount 500_000 p.rules
    × Assigns (cart_of at_ann) p.id (some 500_000) shop updated
    × (to_cart_dto ((hops, 500_000) ∷ (tea, 2) ∷ []) 50
        ≡ to_cart_dto (load_cart (cart_of at_ann) updated) 50)
update-Assigns_example = update-Assigns at_ann 50 shop "hops" 500_000 updated_run

abbrev removed : Database
removed = record shop { items = line 1 1 4 ∷ line 2 2 300_000 ∷ [] }

removed_run : remove at_ann "tea" 50 shop ≡ ok (to_cart_dto ((hops, 300_000) ∷ []) 50, removed)
unfolding runs
removed_run = refl

shop-IsKeyed : IsKeyed shop.items
unfolding runs
shop-IsKeyed = (refl, (refl, (refl, tt)))

remove-Assigns_example :
    (p : Product) × (find_line "tea" (load_cart (cart_of at_ann) shop) ≡ some p)
    × IsOpen at_ann 50 shop
    × Assigns (cart_of at_ann) p.id none shop removed
    × (to_cart_dto ((hops, 300_000) ∷ []) 50 ≡ to_cart_dto (load_cart (cart_of at_ann) removed) 50)
remove-Assigns_example = remove-Assigns at_ann 50 shop "tea" 0 shop-IsKeyed removed_run

abbrev cleared : Database
cleared = record shop { items = line 1 1 4 ∷ [] }

cleared_run : clear at_ann 50 shop ≡ ok (empty, cleared)
unfolding runs
cleared_run = refl

clear_empties_example :
    IsOpen at_ann 50 shop
    × ((d q : ℕ)
        → amount_of d q cleared.items
          ≡ (if cart_of at_ann == d then none else amount_of d q shop.items))
    × (cleared ≡ record shop { items = cleared.items })
    × (empty ≡ empty)
clear_empties_example = clear_empties at_ann 50 shop cleared_run

guest_cart_found : find_cart 1 shop.carts ≡ some guest_cart
unfolding runs
guest_cart_found = refl

unordered : has_order 1 shop.orders ≡ false
unfolding runs
unordered = refl

-- At 1_000 the guest's cart has expired.
closed_cart_refuses_example :
    (add at_guest "tea" 3 1_000 shop ≡ err unauthorized)
    × (update at_guest "tea" 3 1_000 shop ≡ err unauthorized)
    × (remove at_guest "tea" 1_000 shop ≡ err unauthorized)
    × (clear at_guest 1_000 shop ≡ err unauthorized)
closed_cart_refuses_example =
    closed_cart_refuses at_guest 1_000 shop "tea" 3 guest_cart guest_cart_found unauthorized
      (inr (unordered, refl, omega arith, refl))

abbrev told : CheckoutReadiness
told = record {
  checked_at = 50;
  lines =
      record { outcome = available; product_slug = "hops"; requested_amount = 300_000 }
      ∷ record { outcome = available; product_slug = "tea"; requested_amount = 2 }
      ∷ [];
  status = ready;
}

told_run : checkout_readiness at_ann 50 shop ≡ ok told
unfolding runs
told_run = refl

ready_iff_example : (told.status ≡ ready) ↔ (
    (load_cart (cart_of at_ann) shop ≢ [])
    × All (λ l. IsBuyable l.0 l.1 50) (load_cart (cart_of at_ann) shop))
ready_iff_example = ready_iff at_ann 50 shop told_run

abbrev digest : String → ℕ
digest s = 11

abbrev fresh : Fresh
fresh = record { cart_id = 9; token = "new" }

abbrev merged : Database
merged = record shop { carts = ann_cart ∷ []; items = line 2 2 300_000 ∷ line 2 1 4 ∷ [] }

merged_run :
    merge_guest_into_account digest (λ c. false) 7 (some "token") 50 fresh shop
    ≡ ok (succeeded, merged)
unfolding runs
merged_run = refl

ann_cart_found : find_user_cart 7 shop.carts ≡ some ann_cart
unfolding runs
ann_cart_found = refl

guest_cart_active :
    find_active_guest digest (digest_of digest (some "token")) 50 shop ≡ some guest_cart
unfolding runs
guest_cart_active = refl

merge_keeps_larger_example : IsMerged 2 1 shop merged
merge_keeps_larger_example =
    merge_keeps_larger digest (λ c. false) 7 (some "token") 50 fresh shop ann_cart guest_cart
      ann_cart_found guest_cart_active (omega arith) shop-IsKeyed merged_run

-- The guest paid from the cart once, and the order was cancelled.
abbrev withdrawn : Database
withdrawn = record shop { orders = cancelled_order ∷ [] }

cancelled_seen : has_order 1 withdrawn.orders ≡ true
unfolding runs
cancelled_seen = refl

still_active :
    find_active_guest digest (digest_of digest (some "token")) 50 withdrawn ≡ some guest_cart
unfolding runs
still_active = refl

merge_refused_by_order_example :
    merge_guest_into_account digest (λ c. false) 7 (some "token") 50 fresh withdrawn
    ≢ ok (succeeded, merged)
merge_refused_by_order_example =
    merge_refused_by_order digest (λ c. false) 7 (some "token") 50 fresh withdrawn ann_cart
      guest_cart ann_cart_found still_active (omega arith) cancelled_seen (succeeded, merged)

tea-valid : (a : ℕ) → (a ≡ 4) ⊎ (a ≡ 2) → is_valid_order_amount a tea.rules ≡ true
unfolding runs
tea-valid a (inl e) = subst (λ n. is_valid_order_amount n tea.rules ≡ true) (sym e) refl
tea-valid a (inr e) = subst (λ n. is_valid_order_amount n tea.rules ≡ true) (sym e) refl

hops-valid : (a : ℕ) → a ≡ 300_000 → is_valid_order_amount a hops.rules ≡ true
unfolding runs
hops-valid a e = subst (λ n. is_valid_order_amount n hops.rules ≡ true) (sym e) refl

shop-IsOrderable : (c p a : ℕ) → amount_of c p shop.items ≡ some a → IsOrderable shop.products p a
unfolding amount_of find_product
shop-IsOrderable c p a h = elim (Bool-cases (p == 1)) [
  | inl e ↦ (tea, ground (arith, e), tea-valid a (ground (arith, e)))
  | inr e ↦ (hops, ground (arith, e), hops-valid a (ground (arith, e)))
]

shop-CartsOk : CartsOk shop
unfolding runs count_items
shop-CartsOk = record {
  ids = (refl, (refl, tt));
  keyed = shop-IsKeyed;
  bounded = λ c. ground arith;
  orderable = shop-IsOrderable;
}

step-CartsOk_example : CartsOk (step digest shop (50, adds at_guest "tea" 3))
step-CartsOk_example = step-CartsOk digest shop 50 (adds at_guest "tea" 3) shop-CartsOk tt

guest_cart-IsOpen : IsOpen at_guest 50 shop
guest_cart-IsOpen = record {
  cart = guest_cart;
  found = guest_cart_found;
  unplaced = unordered;
  alive = inr (omega arith);
}

ann_cart-IsOpen : IsOpen at_ann 50 shop
unfolding runs
ann_cart-IsOpen = record { cart = ann_cart; found = refl; unplaced = refl; alive = inl refl }

tea_found : find_slug "tea" shop.products ≡ some tea
unfolding runs
tea_found = refl

tea_sold : is_sold tea 50 ≡ true
unfolding runs
tea_sold = refl

seven_teas : IsOrderAmount (amount_in shop 1 1 + 3) tea.rules
unfolding runs
seven_teas = (valid-IsOrderAmount_iff 7 tea.rules).0 refl

teas_had : amount_of 1 1 shop.items ≡ some 4
unfolding runs
teas_had = refl

add_succeeds_example :
    (dto : CartDto) × (db' : Database) × (add at_guest "tea" 3 50 shop ≡ ok (dto, db'))
add_succeeds_example =
    add_succeeds at_guest 50 shop "tea" 3 tea guest_cart-IsOpen tea_found tea_sold seven_teas
      (inl (4, teas_had))

hops_line_found : find_line "hops" (load_cart 2 shop) ≡ some hops
unfolding runs
hops_line_found = refl

hops_shown : is_public_product_eligible hops.eligibility 50 ≡ true
unfolding runs
hops_shown = refl

half_a_kilo : IsOrderAmount 500_000 hops.rules
unfolding runs
half_a_kilo = (valid-IsOrderAmount_iff 500_000 hops.rules).0 refl
