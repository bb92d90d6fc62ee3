-- ===== src/Domain/Sale.antt =====
-- internal/domain/sale/sale.go. An instant is the number of nanoseconds since Go's zero time.
use flashsale_service.Prelude.{
  ℕ, ◌<◌, String, ℤ, pos, ◌+ℤ◌, ◌≡◌, Bool, ◌&&◌, ◌||◌, ltb, ltb_ℤ, leb_ℤ, ◌=ℕ=◌, ◌==◌, arith,
  if◌then◌else◌, ◌≤ℤ◌, ◌↔◌, eq_iff, ◌≢◌, true,
}
use flashsale_service.Errors.{message}
use flashsale_service.Effect.{Result, ok, err}

pub record Sale : Type 0 where
  pub id : String
  pub started_at : ℕ
  pub ended_at : ℕ
  pub total_items : ℤ
  pub items_sold : ℤ
  pub created_at : ℕ

-- `time.Time.After` and `Before`.
abbrev pub after : ℕ → ℕ → Bool
after t u = ltb u t

abbrev pub before : ℕ → ℕ → Bool
before t u = ltb t u

-- `now` is what `time.Now()` answers.
unfoldable pub new_sale : String → ℕ → ℕ → ℤ → ℕ → Result Sale
new_sale id started_at ended_at total_items now =
    if id == ""
    then err (message "sale id cannot be empty")
    else if after started_at ended_at || started_at =ℕ= ended_at
    then err (message "start time must be before end time")
    else if leb_ℤ total_items (pos 0)
    then err (message "total items must be greater than zero")
    else ok (record {
      id = id;
      started_at = started_at;
      ended_at = ended_at;
      total_items = total_items;
      items_sold = pos 0;
      created_at = now;
    })

unfoldable pub is_active : Sale → ℕ → Bool
is_active s now = after now s.started_at && before now s.ended_at

unfoldable pub has_available_items : Sale → Bool
has_available_items s = ltb_ℤ s.items_sold s.total_items

unfoldable pub increment_items_sold : Sale → Sale
increment_items_sold s = record s { items_sold = s.items_sold +ℤ pos 1 }

abbrev pub IsWellFormed : Sale → Type 0
IsWellFormed s =
    (s.id ≢ "")
    × (s.started_at < s.ended_at)
    × (pos 1 ≤ℤ s.total_items)
    × (pos 0 ≤ℤ s.items_sold)
    × (s.items_sold ≤ℤ s.total_items)

-- A sale that `NewSale` returns has a name, a window that is not empty, something to sell, and
-- nothing sold.
pub new_sale-IsWellFormed :
    (id : String) (start end now : ℕ) (total : ℤ) {s : Sale}
    → new_sale id start end total now ≡ ok s
    → IsWellFormed s × (s.items_sold ≡ pos 0)
unfolding new_sale
new_sale-IsWellFormed id start end now total h = ground (arith, eq_iff id "")

-- Selling one more item keeps a sale well formed exactly when it has available items.
pub increment_items_sold-IsWellFormed :
    (s : Sale)
    → IsWellFormed s
    → (has_available_items s ≡ true) ↔ IsWellFormed (increment_items_sold s)
unfolding has_available_items increment_items_sold ◌+ℤ◌
increment_items_sold-IsWellFormed s h = ground arith
