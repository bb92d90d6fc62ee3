-- ===== src/Postgres/CheckoutRepository/Tests.antt =====
-- The repository at a concrete input.
use flashsale_service.Postgres.CheckoutRepository.Deletion.{Deleted, delete_checkout-Deleted}
use flashsale_service.Postgres.CheckoutRepository.{log_checkout_attempt, delete_checkout}
use flashsale_service.Effect.{Result}
use flashsale_service.Postgres.CheckoutRepository.Listing.{Logged, log_checkout_attempt-Logged}
use flashsale_service.Domain.Item.{Item}
use flashsale_service.Domain.Sale.{Sale}
use flashsale_service.Prelude.{ℕ, String, pos, false, ◌∷◌, ◌=ℕ=◌, none, [], true, arith, eq_iff}
use flashsale_service.Postgres.Store.{answered, closed, Store}

abbrev drawn : ℕ → String
drawn n = elim (n =ℕ= 0) [ true ↦ "C-0" | false ↦ "C-1" ]

abbrev spring : Sale
spring = record {
  id = "S-1";
  started_at = 1;
  ended_at = 9;
  total_items = pos 1;
  items_sold = pos 0;
  created_at = 1;
}

abbrev lamp : Item
lamp = record {
  id = "a";
  sale_id = "S-1";
  name = "Lamp";
  image_url = "";
  sold = false;
  sold_to_user_id = "";
  sold_at = none;
  created_at = 1;
}

abbrev checked_out : Store
checked_out = record {
  tables = record {
    sales = spring ∷ [];
    items = lamp ∷ [];
    purchase_results = [];
    attempts =
        record {
          id = "C-9";
          checkout_code = "CHK";
          sale_id = "S-1";
          user_id = "ann";
          created_at = 2;
        }
        ∷ [];
    entries = record { id = "C-8"; checkout_attempt_id = "C-9"; item_id = "a"; added_at = 2 } ∷ [];
    purchases = [];
  };
  txs = λ n. closed;
  next_tx = 0;
  answers = λ n. answered;
  tick = 0;
  clock = 5;
}

log_checkout_attempt-Logged_example :
    Logged drawn "CHK" "a" checked_out.tables
      (log_checkout_attempt drawn "S-1" "ann" "CHK" "a" checked_out)
log_checkout_attempt-Logged_example =
    log_checkout_attempt-Logged drawn "S-1" "ann" "CHK" "a" checked_out

-- The lamp is listed twice after one logged attempt.
logged_run : Result (Unit {0}) × Store
logged_run = log_checkout_attempt drawn "S-1" "ann" "CHK" "a" checked_out

delete_checkout-Deleted_example :
    Deleted "CHK" "CHK-2" checked_out.tables (delete_checkout "CHK" checked_out)
delete_checkout-Deleted_example =
    delete_checkout-Deleted "CHK" "CHK-2" checked_out (ground (arith, eq_iff "CHK-2" "CHK"))
